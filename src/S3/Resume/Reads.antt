-- ===== src/S3/Resume/Reads.antt =====
-- s3/objects.go: every read of `resumingBody` gives what comes next of the version that it began
-- on.
use go_storage.Prelude.{
  ℕ, zero, suc, ◌≡◌, refl, sym, subst, ◌∙◌, true, false, Option, none, some, Option-cases,
  Bool-cases, List, [], ◌⊎◌, inl, inr, arith,
}
use go_storage.Prelude.Text.{Text}
use go_storage.Errors.{GoError, sentinel, same, body_closed}
use go_storage.Stream.Partial.{ReadsPart}
use go_storage.Storage.{Context}
use go_storage.S3.Api.{Api}
use go_storage.S3.Put.{S3Client}
use go_storage.S3.Resume.{Reading, resumable, resume, serve, give_up, read_again, read_resuming}
use go_storage.S3.Resume.Version.{
  ServesVersion, to_come, Stepped, Resumes, On, failing, serve_lem, kept_error, resume_lem,
}

module _ {W B : Type 0} {api : Api W B} (c : S3Client) (ctx : Context W) {key etag : Text}
    {version : List ℕ} {BodyHolds : B → Type 0} {body_content : B → List ℕ}
    (honest : ServesVersion api c.bucket key etag version BodyHolds body_content) where
  abbrev pub Holding : Reading W B → Type 0
  Holding = On c ctx honest

  abbrev pub rest_of : Reading W B → List ℕ
  rest_of s = to_come key etag version BodyHolds body_content s

  shifted :
      (s s' : Reading W B) (n : ℕ) (out : List ℕ × Option GoError × Reading W B)
      → rest_of s' ≡ rest_of s
      → ReadsPart Holding rest_of s' n out
      → ReadsPart Holding rest_of s n out
  shifted s s' n out e w = record {
    holds = w.holds;
    splits = sym e ∙ w.splits;
    ends = w.ends;
    moves = w.moves;
  }

  give_up_lem :
      (s : Reading W B) (n : ℕ)
      → Holding s
      → s.0.body ≡ none
      → ReadsPart Holding rest_of s n (give_up api c ctx s)
  give_up_lem (b, w) n h gone = go b.last_err refl
    where
      go :
          (l : Option GoError)
          → b.last_err ≡ l
          → ReadsPart Holding rest_of (b, w) n ([], l, (record b { err = l }, w))
      go none q = absurd (h.fallen gone q)
      go (some e) q =
          failing c ctx honest (b, w) _ n e
            (kept_error c ctx honest (b, w) w e h (h.last_fails e q)) refl (h.last_fails e q)

  -- Behind a step that may have lost its body.
  after_step :
      (s : Reading W B) (n : ℕ) (x : (List ℕ × Option GoError × Reading W B) ⊎ Reading W B)
      (again : Reading W B → List ℕ × Option GoError × Reading W B)
      → Stepped key etag version BodyHolds body_content s n x
      → ((lost : Reading W B)
          → Holding lost
          → lost.0.body ≡ none
          → ReadsPart Holding rest_of lost n (again lost))
      → ReadsPart Holding rest_of s n (elim x [ inl out ↦ out | inr lost ↦ again lost ])
  unfolding Stepped
  after_step s n (inl out) again step go_on = step
  after_step s n (inr lost) again step go_on =
      shifted s lost n (again lost) step.2 (go_on lost step.0 step.1)

  read_again_lem :
      (left : ℕ) (s : Reading W B) (n : ℕ)
      → Holding s
      → s.0.body ≡ none
      → ReadsPart Holding rest_of s n (read_again api c ctx left s n)
  unfolding read_again Resumes
  read_again_lem zero s n h gone = give_up_lem s n h gone
  read_again_lem (suc left) s n h gone = elim (Bool-cases (resumable api c ctx s)) [
    | inr over ↦ rw (over, read_again) (give_up_lem s n h gone)
    | inl on ↦
        rw (on, read_again)
          (go (λ lost k gone'. read_again_lem left lost n k gone') (resume api c ctx s).0 refl
            (resume_lem c ctx honest s h))
  ]
    where
      go :
          ((lost : Reading W B)
            → Holding lost
            → lost.0.body ≡ none
            → ReadsPart Holding rest_of lost n (read_again api c ctx left lost n))
          → (got : GoError ⊎ B) → (resume api c ctx s).0 ≡ got
          → Resumes key etag version BodyHolds body_content s (got, (resume api c ctx s).1)
          → ReadsPart Holding rest_of s n (elim (resume api c ctx s).0 [
            | inl e ↦ (
              [],
              some e,
              (record ((resume api c ctx s).1.0) { err = some e }, (resume api c ctx s).1.1),
            )
            | inr body ↦ elim (serve api c ctx body (resume api c ctx s).1 n) [
              | inl out ↦ out
              | inr lost ↦ read_again api c ctx left lost n
            ]
          ])
      go again (inl e) q (fails, h', same_rest) =
          rw q (failing c ctx honest s _ n e h' same_rest fails)
      go again (inr x) q (h', hb, rest, same_rest) = rw q (
          shifted s (resume api c ctx s).1 n _ same_rest (
            after_step (resume api c ctx s).1 n (serve api c ctx x (resume api c ctx s).1 n)
              (λ lost. read_again api c ctx left lost n)
              (serve_lem c ctx honest x (resume api c ctx s).1 n h' hb rest) again))

  module _ (s : Reading W B) (n : ℕ) where
    read_closed :
        s.0.closed ≡ true → read_resuming api c ctx s n ≡ ([], some (sentinel body_closed), s)
    unfolding read_resuming
    read_closed shut = ground (arith, shut)

    read_failed :
        (e : GoError)
        → s.0.closed ≡ false
        → s.0.err ≡ some e
        → read_resuming api c ctx s n ≡ ([], some e, s)
    unfolding read_resuming
    read_failed e up q = ground (arith, up, q)

    read_gone :
        s.0.closed ≡ false
        → s.0.err ≡ none
        → s.0.body ≡ none
        → read_resuming api c ctx s n ≡ read_again api c ctx s.0.retries s n
    unfolding read_resuming
    read_gone up fine gone = ground (arith, up, fine, gone)

    read_served :
        (x : B)
        → s.0.closed ≡ false
        → s.0.err ≡ none
        → s.0.body ≡ some x
        → read_resuming api c ctx s n ≡ (elim (serve api c ctx x s n) [
          | inl out ↦ out
          | inr lost ↦ read_again api c ctx s.0.retries lost n
        ])
    unfolding read_resuming
    read_served x up fine q = ground (arith, up, fine, q)

  -- Every read of a resuming body gives what comes next of the version.
  pub read_resuming_lem :
      (s : Reading W B) (n : ℕ)
      → Holding s
      → ReadsPart Holding rest_of s n (read_resuming api c ctx s n)
  unfolding same
  read_resuming_lem s n h = elim (Bool-cases s.0.closed) [
    | inl shut ↦
        subst (ReadsPart Holding rest_of s n) (sym (read_closed s n shut))
          (failing c ctx honest s s n (sentinel body_closed) h refl refl)
    | inr up ↦ elim (Option-cases s.0.err) [
      | inr (e, q) ↦
          subst (ReadsPart Holding rest_of s n) (sym (read_failed s n e up q))
            (failing c ctx honest s s n e h refl (h.err_fails e q))
      | inl fine ↦ elim (Option-cases s.0.body) [
        | inl gone ↦
            subst (ReadsPart Holding rest_of s n) (sym (read_gone s n up fine gone))
              (read_again_lem s.0.retries s n h gone)
        | inr (x, q) ↦ subst (ReadsPart Holding rest_of s n) (sym (read_served s n x up fine q)) (
            after_step s n (serve api c ctx x s n) (λ lost. read_again api c ctx s.0.retries lost n)
              (serve_lem c ctx honest x s n h (h.serving x q).0 (h.serving x q).1)
              (λ lost k gone. read_again_lem s.0.retries lost n k gone))
      ]
    ]
  ]
