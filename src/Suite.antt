-- ===== src/Suite.antt =====
-- storagetest/suite.go: the conformance suite for a `Client`, as functions of a client and of the
-- world. A failure is the format of its message.
pub mod Passes
pub mod Missing
pub mod Cases
pub mod Deleted
use go_storage.Prelude.{
  ℕ, zero, suc, ◌+◌, String, Bool, true, false, not, ◌&&◌, ◌||◌, Option, none, some, List, [], ◌∷◌,
  ◌++◌, length, drop, leb, ltb, ◌==◌, if◌then◌else◌,
}
use go_storage.Prelude.Int.{ℤ, pos, ltb_ℤ}
use go_storage.Prelude.Text.{Text, codes, is_empty, has_prefix, text_eq}
use go_storage.Prelude.Assoc.{Assoc, lookup}
use go_storage.Errors.{GoError, sentinel, is, is_some, not_found, container_not_found, unavailable}
use go_storage.Stream.{Reader, read_all}
use go_storage.Storage.{Time, Object, PutOptions, ListOptions, Context, Client}

-- What a step of a test comes to: a value unless it was fatal, the failures, and the state: the
-- world, and the keys that a cleanup deletes.
abbrev pub Test : Type 0 → Type 0 → Type 0
Test W A = W × List Text → Option A × List String × (W × List Text)

abbrev pub passing : {W A : Type 0} → A → Test W A
passing a s = (some a, [], s)

-- `t.Fatalf`, and failures of `t.Errorf`.
abbrev pub fatal : {W A : Type 0} → String → Test W A
fatal msg s = (none, msg ∷ [], s)

abbrev pub report : {W : Type 0} → List String → Test W (Unit {0})
report fs s = (some tt, fs, s)

-- One step and what follows it.
unfoldable pub and_then : {W A C : Type 0} → Test W A → (A → Test W C) → Test W C
and_then t next s =
    let (v, fs, s') = t s in
    elim v [ none ↦ (none, fs, s') | some a ↦ (let (v', gs, s2) = next a s' in (v', fs ++ gs, s2)) ]

-- A failure unless a test holds.
unfoldable pub want : Bool → String → List String
want b msg = if b then [] else msg ∷ []

-- `s[len(s)-1] == b` where `s` is not empty.
unfoldable pub ends_in : ℕ → Text → Bool
ends_in b [] = false
ends_in b (x ∷ []) = x == b
ends_in b (x ∷ y ∷ t) = ends_in b (y ∷ t)

abbrev pub trim_prefix : Text → Text → Text
trim_prefix s p = if has_prefix s p then drop (length p) s else s

unfoldable pub is_entity_tag : Text → Bool
unfolding ends_in
is_entity_tag s =
    let u = trim_prefix s (codes "W/") in
    leb 2 (length u) && (has_prefix u (codes "\"") && ends_in 34 u)

abbrev pub same_int : ℤ → ℤ → Bool
same_int a b = not (ltb_ℤ a b || ltb_ℤ b a)

unfoldable pub want_etag : Object → Object → List String
unfolding want is_entity_tag
want_etag got expected =
    if is_empty got.etag
    then "%s ETag is empty" ∷ []
    else if not (is_entity_tag got.etag)
    then "%s ETag = %q, want a quoted entity tag" ∷ []
    else want (text_eq got.etag expected.etag) "%s ETag = %q, want %q as Put reported"

unfoldable pub want_time : Object → Object → List String
unfolding want
want_time got expected =
    if got.modified_at.instant == 0
    then "%s ModifiedAt is zero" ∷ []
    else if not (got.modified_at.zone == 0)
    then "%s ModifiedAt = %v in zone %q, want it in time.UTC" ∷ []
    else want (got.modified_at.instant == expected.modified_at.instant)
        "%s ModifiedAt = %v, want %v as Put reported"

-- `wantObject`
unfoldable pub want_object : Object → Object → Text → ℤ → Text → List String
unfolding want want_etag want_time
want_object got expected key size content_type =
    want (text_eq got.key key) "%s Key = %q, want %q"
    ++ (want (same_int got.size size) "%s Size = %d, want %d"
        ++ (want (text_eq got.content_type content_type) "%s ContentType = %q, want %q"
            ++ (want_etag got expected ++ want_time got expected)))

-- `wantNotFound`, of an error that may be nil.
unfoldable pub want_not_found : Option GoError → List String
want_not_found err =
    if not (is_some err (sentinel not_found))
    then "%s = %v, want ErrNotFound" ∷ []
    else if is_some err (sentinel container_not_found)
    then "%s = %v, want it not to match ErrContainerNotFound" ∷ []
    else if is_some err (sentinel unavailable)
    then "%s = %v, want it not to match ErrUnavailable" ∷ []
    else []

-- What `checkMissingContainer` makes of one operation's error.
unfoldable pub want_no_container : Option GoError → List String
unfolding want
want_no_container err =
    want (is_some err (sentinel container_not_found))
      "%s without a container = %v, want ErrContainerNotFound"
    ++ want (not (is_some err (sentinel not_found)))
        "%s without a container = %v, want it not to match ErrNotFound"

-- A failure unless an error is nil, and one that ends the test.
unfoldable pub want_nil : String → Option GoError → List String
want_nil msg none = []
want_nil msg (some e) = msg ∷ []

unfoldable pub need_nil : {W : Type 0} → String → Option GoError → Test W (Unit {0})
need_nil msg none = passing tt
need_nil msg (some e) = fatal msg

-- `ctx` is the test's context, `body` reads a Get's body and `close` closes it; `fuel` bounds the
-- reads of `io.ReadAll`.
module _ {W B : Type 0} (c : Client W B) (ctx : Context W) (body : Reader B)
    (close : B → W → Option GoError × W) (fuel : ℕ) where
  -- `put`
  unfoldable pub put : {S : Type 0} → Reader S → Text → PutOptions → S → Test W Object
  put {S} r key opts s (w, cleanup) =
      let (obj, err, s', w') = c.put S r ctx key opts s w in
      elim err [
        | some e ↦ fatal "Put(%q): %v" (w', key ∷ cleanup)
        | none ↦ passing obj (w', key ∷ cleanup)
      ]

  -- `get`, behind the Get: reading and closing the body.
  unfoldable pub drained : Object → B → Test W (List ℕ × Object)
  drained obj b (w, cleanup) = elim (read_all body fuel [] b) [
    | none ↦ fatal "read Get(%q) body: %v" (w, cleanup)
    | some (bytes, err, b') ↦
        let (closed, w') = close b' w in
        elim err [
          | some e ↦ fatal "read Get(%q) body: %v" (w', cleanup)
          | none ↦ elim closed [
            | some e ↦ fatal "close Get(%q) body: %v" (w', cleanup)
            | none ↦ passing (bytes, obj) (w', cleanup)
          ]
        ]
  ]

  -- `get`; a Get that gives no body and no error makes the source panic.
  unfoldable pub get : Text → Test W (List ℕ × Object)
  unfolding drained
  get key (w, cleanup) =
      let (blob, err, w') = c.get ctx key w in
      elim err [
        | some e ↦ fatal "Get(%q): %v" (w', cleanup)
        | none ↦ elim blob.body [
          | none ↦ fatal "panic" (w', cleanup)
          | some b ↦ drained blob.object b (w', cleanup)
        ]
      ]

  -- `stat`
  unfoldable pub stat : Text → Test W Object
  stat key (w, cleanup) =
      let (obj, err, w') = c.stat ctx key w in
      elim err [ some e ↦ fatal "Stat(%q): %v" (w', cleanup) | none ↦ passing obj (w', cleanup) ]

  -- What `wantContent` asks of what Get gave.
  unfoldable pub want_got : Object → Text → List ℕ → Text → List ℕ × Object → List String
  unfolding want want_object
  want_got stored key content content_type (bytes, obj) =
      want (text_eq bytes content) "Get(%q) returned %d bytes, want the %d bytes written%s"
      ++ want_object obj stored key (pos (length content)) content_type

  -- `wantContent`
  unfoldable pub want_content : Text → Object → List ℕ → Text → Test W (Unit {0})
  unfolding want_got get stat want_object
  want_content key stored content content_type =
      and_then (report (want_object stored stored key (pos (length content)) content_type)) (λ _.
        and_then (get key) (λ got.
          and_then (report (want_got stored key content content_type got)) (λ _.
            and_then (stat key)
              (λ obj. report (want_object obj stored key (pos (length content)) content_type)))))

  -- What the cases share that put one body and read it back.
  unfoldable pub check_content :
      {S : Type 0} → Reader S → Text → PutOptions → S → List ℕ → Text → Test W (Unit {0})
  unfolding put want_content
  check_content r key opts s content content_type =
      and_then (put r key opts s) (λ obj. want_content key obj content content_type)

  -- The error of a Get of a key that should be absent; its body, if there is one, is closed.
  unfoldable pub get_error : Text → Test W (Option GoError)
  get_error key (w, cleanup) =
      let (blob, err, w') = c.get ctx key w in
      elim err [
        | some e ↦ passing (some e) (w', cleanup)
        | none ↦ elim blob.body [
          | none ↦ fatal "panic" (w', cleanup)
          | some b ↦ passing none ((close b w').1, cleanup)
        ]
      ]

  unfoldable pub stat_error : Text → Test W (Option GoError)
  stat_error key (w, cleanup) = let (obj, err, w') = c.stat ctx key w in passing err (w', cleanup)

  unfoldable pub delete_error : Text → Test W (Option GoError)
  delete_error key (w, cleanup) = let (err, w') = c.delete ctx key w in passing err (w', cleanup)

  -- `checkMissingKey`
  unfoldable pub check_missing_key : Text → Test W (Unit {0})
  unfolding get_error stat_error want_not_found
  check_missing_key prefix = and_then (get_error (prefix ++ codes "missing")) (λ err.
      and_then (report (want_not_found err)) (λ _.
        and_then (stat_error (prefix ++ codes "missing")) (λ err'. report (want_not_found err'))))

  -- `checkDelete`, of a body that is read by `r`.
  unfoldable pub check_delete : {S : Type 0} → Reader S → S → Text → Test W (Unit {0})
  unfolding put delete_error stat_error get_error want_not_found want_nil need_nil
  check_delete r s prefix =
      and_then (put r (prefix ++ codes "deleted") (record { content_type = []; size = pos 0 }) s)
        (λ _. and_then (delete_error (prefix ++ codes "deleted")) (λ gone.
          and_then (need_nil "Delete(%q): %v" gone) (λ _.
            and_then (stat_error (prefix ++ codes "deleted")) (λ err.
              and_then (report (want_not_found err)) (λ _.
                and_then (get_error (prefix ++ codes "deleted")) (λ err'.
                  and_then (report (want_not_found err')) (λ _.
                    and_then (delete_error (prefix ++ codes "deleted")) (λ again.
                      and_then (report (want_nil "second Delete(%q) = %v, want nil" again)) (λ _.
                        and_then (delete_error (prefix ++ codes "never-written")) (λ never.
                          report (
                            want_nil "Delete of a never-written key = %v, want nil" never)))))))))))

  -- `checkEnsureContainer`
  unfoldable pub ensure_error : Test W (Option GoError)
  ensure_error (w, cleanup) = let (err, w') = c.ensure_container ctx w in passing err (w', cleanup)

  unfoldable pub probe_error : Test W (Option GoError)
  probe_error (w, cleanup) = let (err, w') = c.probe ctx w in passing err (w', cleanup)

  unfoldable pub check_ensure_container : Test W (Unit {0})
  unfolding ensure_error probe_error want_nil need_nil
  check_ensure_container = and_then ensure_error (λ first.
      and_then (need_nil "EnsureContainer call %d over an existing container: %v" first) (λ _.
        and_then ensure_error (λ second.
          and_then (need_nil "EnsureContainer call %d over an existing container: %v" second) (λ _.
            and_then probe_error
              (λ err. report (want_nil "Probe after EnsureContainer = %v, want nil" err))))))

  -- The error of a Put; the key is deleted at the end if there is none.
  unfoldable pub put_error :
      {S : Type 0} → Reader S → Text → PutOptions → S → Test W (Option GoError)
  put_error {S} r key opts s (w, cleanup) =
      let (obj, err, s', w') = c.put S r ctx key opts s w in
      elim err [ some e ↦ passing (some e) (w', cleanup) | none ↦ passing none (w', key ∷ cleanup) ]

  unfoldable pub list_error : Test W (Option GoError)
  list_error (w, cleanup) =
      let (page, err, w') = c.list ctx (record { prefix = []; token = []; limit = pos 0 }) w in
      passing err (w', cleanup)

  -- `checkMissingContainer`, of a body of one byte that is read by `r`.
  unfoldable pub check_missing_container : {S : Type 0} → Reader S → S → Text → Test W (Unit {0})
  unfolding want_no_container probe_error put_error get_error stat_error delete_error list_error
  check_missing_container r s key = and_then probe_error (λ e1.
      and_then (report (want_no_container e1)) (λ _.
        and_then (put_error r key (record { content_type = []; size = pos 1 }) s) (λ e2.
          and_then (report (want_no_container e2)) (λ _. and_then (get_error key) (λ e3.
            and_then (report (want_no_container e3)) (λ _. and_then (stat_error key) (λ e4.
              and_then (report (want_no_container e4)) (λ _. and_then (delete_error key) (λ e5.
                and_then (report (want_no_container e5))
                  (λ _. and_then list_error (λ e6. report (want_no_container e6))))))))))))
