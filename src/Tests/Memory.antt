-- ===== src/Tests/Memory.antt =====
-- A service that keeps one bucket in memory, behind the interfaces of both SDKs: its bodies give a
-- few bytes, one at a time, and then fail.
use go_storage.Prelude.{
  ℕ, zero, suc, ◌+◌, ◌≤◌, ◌<◌, ◌≡◌, refl, sym, ap, Bool, true, false, Option, none, some, List, [],
  ◌∷◌, length, length-append, drop, ltb, ◌/◌, ◌%◌, if◌then◌else◌, ◌⊎◌, inl, inr, arith, Bool-cases,
}
use go_storage.Prelude.Int.{pos}
use go_storage.Prelude.Text.{Text, codes, has_prefix, text_eq, text_eq_refl, eq_of_text_eq}
use go_storage.Prelude.Assoc.{Assoc, lookup, insert, delete, lookup-insert}
use go_storage.Errors.{GoError, sentinel, foreign, response, end, eof, same, same_eof}
use go_storage.Stream.{Reader, IsStream, read_all, read_all_cases, read_outcome}
use go_storage.Stream.Partial.{ReadsPart, IsPartial}
use go_storage.Storage.Contract.{PutOutcome, undeclared, failure_of, refused}
use go_storage.S3.Api.{Written, Head, Answer, Api, to_string}
use go_storage.S3.Put.Contract.{WritesWhole}
use go_storage.S3.Resume.{decimal, decimal_from, range_from, range_prefix}
use go_storage.S3.Resume.Version.{ServesVersion}

abbrev pub Memory : Type 0
Memory = Assoc (List ℕ)

abbrev pub held : Memory → Text → Option (List ℕ)
held m k = lookup k m

-- What an upload that has read its body leaves.
abbrev pub saved :
    {A : Type 0} → A → Text → Option (List ℕ × Option GoError) → Memory → (GoError ⊎ A) × Memory
saved a key none m = (inl (foreign 2 end), m)
saved a key (some (bs, none)) m = (inr a, insert key bs m)
saved a key (some (bs, some e)) m = (inl e, m)

abbrev pub outcome :
    {S : Type 0} → Option (List ℕ × Option GoError × S) → Option (List ℕ × Option GoError)
outcome none = none
outcome (some (bs, e, s)) = some (bs, e)

abbrev pub left_at : {S : Type 0} → S → Option (List ℕ × Option GoError × S) → S
left_at s none = s
left_at s (some (bs, e, t)) = t

-- An upload of at most 1000 reads.
abbrev pub upload_all :
    {A S : Type 0} → A → Reader S → Text → S → Memory → (GoError ⊎ A) × S × Memory
upload_all a r key s m =
    let got = read_all r 1000 [] s in
    let (out, m') = saved a key (outcome got) m in (out, left_at s got, m')

-- A body is what is left of its bytes, and the number that it gives before it fails.
abbrev pub read_frail : List ℕ × ℕ → ℕ → List ℕ × Option GoError × (List ℕ × ℕ)
read_frail ([], k) n = ([], some (sentinel eof), ([], k))
read_frail (x ∷ xs, zero) n = ([], some (foreign 3 end), (x ∷ xs, zero))
read_frail (x ∷ xs, suc k) zero = ([], none, (x ∷ xs, suc k))
read_frail (x ∷ xs, suc k) (suc n) = (x ∷ [], none, (xs, k))

-- An object's bytes are its ETag.
abbrev pub written : Written
written = record { etag = none; date = none }

abbrev pub head_of : List ℕ → Head
head_of bs = record {
  etag = some bs;
  content_length = some (pos (length bs));
  content_type = none;
  last_modified = none;
}

-- The answer without a range, and the one with it, which knows the range from the byte 2 on.
abbrev pub answer_to : List ℕ → Option Text → GoError ⊎ Answer (List ℕ × ℕ)
answer_to bs none = inr (record { head = head_of bs; content_range = none; body = (bs, 2) })
answer_to bs (some range) =
    if text_eq range (range_from 2)
    then inr (record {
      head = head_of bs;
      content_range = some (codes "bytes 2-");
      body = (drop 2 bs, 9);
    })
    else inl (response 416 "InvalidRange" end)

-- An answer on the condition that the bytes are still those of the tag.
abbrev pub answer_if : List ℕ → Option Text → Option Text → GoError ⊎ Answer (List ℕ × ℕ)
answer_if bs range none = answer_to bs range
answer_if bs range (some tag) =
    if text_eq bs tag then answer_to bs range else inl (response 412 "PreconditionFailed" end)

abbrev pub found : Option (List ℕ) → Option Text → Option Text → GoError ⊎ Answer (List ℕ × ℕ)
found none range tag = inl (response 404 "NoSuchKey" end)
found (some bs) range tag = answer_if bs range tag

abbrev pub bare_404 : GoError
bare_404 = response 404 "NotFound" end

abbrev pub memory_api : Api Memory (List ℕ × ℕ)
memory_api = record {
  put_object = λ ctx b key bs t m. (inr written, insert key bs m);
  upload = λ S r ctx b key t n s m. upload_all written r key s m;
  upload_id = λ e. none;
  abort = λ ctx b key id m. (none, m);
  detached = λ d ctx. (ctx, λ m. m);
  head_object =
      λ ctx b key m. (elim (lookup key m) [ none ↦ inl bare_404 | some bs ↦ inr (head_of bs) ], m);
  get_object = λ ctx b key range tag m. (found (lookup key m) range tag, m);
  delete_object = λ ctx b key m. (none, delete key m);
  list_objects = λ ctx b req m. (inl (foreign 4 end), m);
  create_bucket = λ ctx b place m. (none, m);
  head_bucket = λ ctx b m. (none, m);
  body = record { read = read_frail };
  close_body = λ b m. (none, m);
}

insert_outcome :
    (key : Text) (bs : List ℕ) (m : Memory)
    → PutOutcome held key undeclared bs (sentinel eof) m none (insert key bs m)
insert_outcome key bs m = record {
  failed = λ bad k. absurd (bad refl);
  ended = λ e. refl;
  written = λ e. ground (arith, lookup-insert key key bs m, text_eq_refl key);
  sized = λ e p. absurd (omega arith);
  others = λ e k ne. ground (arith, lookup-insert key k bs m, eq_of_text_eq key k);
}

-- An upload of a stream keeps its reader well, and writes all of it or nothing.
pub upload_all_lem :
    {A S : Type 0} {r : Reader S} {Holds Ended : S → Type 0} {content : S → List ℕ}
    {final : S → GoError} (a : A) (stream : IsStream r Holds Ended content final) (key : Text)
    (s : S) (m : Memory)
    → Holds s
    → Holds (upload_all a r key s m).1
      × PutOutcome held key undeclared
          (content s)
          (final s)
          m
          (failure_of (upload_all a r key s m).0)
          (upload_all a r key s m).2
upload_all_lem {r = r} {content = content} {final = final} a stream key s m h =
    elim (read_all_cases r stream 1000 [] s h) [
      | inl spent ↦
          rw spent (h, refused content final key undeclared s m m (foreign 2 end) (λ k. refl))
      | inr (t, h', _, e) ↦ rw e (h', ended (final s) (content s))
    ]
  where
    ended :
        (last : GoError) (bs : List ℕ)
        → PutOutcome held key undeclared bs last m
            (failure_of (saved a key (some (bs, read_outcome last)) m).0)
            (saved a key (some (bs, read_outcome last)) m).1
    ended last bs = go (same last (sentinel eof)) refl
      where
        go :
            (b : Bool)
            → same last (sentinel eof) ≡ b
            → PutOutcome held key undeclared bs last m
                (failure_of (saved a key (some (bs, if b then none else some last)) m).0)
                (saved a key (some (bs, if b then none else some last)) m).1
        go true q = rw (same_eof last q) (insert_outcome key bs m)
        go false q = record {
          failed = λ _ k. refl;
          ended = λ z. cc;
          written = λ z. cc;
          sized = λ z. cc;
          others = λ z. cc;
        }

pub memory-WritesWhole : (bucket : Text) → WritesWhole memory_api bucket held
memory-WritesWhole bucket = record {
  put_object_outcome = λ ctx key bs t m. insert_outcome key bs m;
  upload_reads = λ S r Holds Ended content final ctx key t n s m stream h.
      (upload_all_lem written stream key s m h).0;
  upload_outcome = λ S r Holds Ended content final ctx key t n s m stream h.
      (upload_all_lem written stream key s m h).1;
  abort_keeps = λ ctx key id m k. refl;
  cancel_keeps = λ d ctx m k. refl;
  head_keeps = λ ctx key m k. refl;
}

abbrev pub frail_content : List ℕ × ℕ → List ℕ
frail_content b = b.0

pub frail-IsPartial : IsPartial (record { read = read_frail }) (λ b. Unit {0}) frail_content
unfolding same
frail-IsPartial = record { reads = λ b n h. reads b.0 b.1 n }
  where
    reads :
        (xs : List ℕ) (k n : ℕ)
        → ReadsPart (λ b. Unit {0}) frail_content (xs, k) n (read_frail (xs, k) n)
    reads [] k n = record { holds = tt; splits = refl; ends = λ e p q. refl; moves = λ p q. cc }
    reads (x ∷ xs) zero n = record {
      holds = tt;
      splits = refl;
      ends = λ e p q. absurd (ground (arith, p, q));
      moves = λ p q. cc;
    }
    reads (x ∷ xs) (suc k) zero = record {
      holds = tt;
      splits = refl;
      ends = λ e p. cc;
      moves = λ p q. absurd (omega arith);
    }
    reads (x ∷ xs) (suc k) (suc n) = record {
      holds = tt;
      splits = refl;
      ends = λ e p. cc;
      moves = λ p q. omega arith;
    }

long_decimal : (fuel n : ℕ) (t : Text) → length t < length (decimal_from (suc fuel) n t)
unfolding decimal_from
long_decimal fuel n t = elim (Bool-cases (ltb n 10)) [
  | inl small ↦ ground (arith, small)
  | inr big ↦ ground (arith, big, grows fuel (n / 10) ((48 + n % 10) ∷ t))
]
  where
    grows : (fuel n : ℕ) (t : Text) → length t ≤ length (decimal_from fuel n t)
    grows zero n t = omega arith
    grows (suc fuel) n t = elim (Bool-cases (ltb n 10)) [
      | inl small ↦ ground (arith, small)
      | inr big ↦ ground (arith, big, grows fuel (n / 10) ((48 + n % 10) ∷ t))
    ]

two_digits : (fuel n : ℕ) → 10 ≤ n → 2 ≤ fuel → 2 ≤ length (decimal_from fuel n [])
unfolding decimal_from
two_digits zero n h k = absurd (omega arith)
two_digits (suc zero) n h k = absurd (omega arith)
two_digits (suc (suc fuel)) n h k =
    ground (arith, h, long_decimal fuel (n / 10) ((48 + n % 10) ∷ []))

one_digit : (fuel n : ℕ) → n < 10 → 0 < fuel → decimal_from fuel n [] ≡ (48 + n) ∷ []
unfolding decimal_from
one_digit zero n h k = absurd (omega arith)
one_digit (suc fuel) n h k = ground (arith, h)

prefix_length : (s t : Text) → has_prefix s t ≡ true → length t ≤ length s
unfolding has_prefix
prefix_length s [] h = omega arith
prefix_length [] (b ∷ t) h = cc
prefix_length (a ∷ s) (b ∷ t) h = ground (arith, h, prefix_length s t)

-- The answered range begins at the byte 2 alone.
offset_two : (o : ℕ) → has_prefix (codes "bytes 2-") (range_prefix o) ≡ true → o ≡ 2
unfolding has_prefix
offset_two o h = elim (Bool-cases (ltb o 10)) [
  | inl small ↦ short (ground (arith, small))
  | inr big ↦ long (ground (arith, big))
]
  where
    short : o < 10 → o ≡ 2
    short lt = ground (arith, rw (one_digit (o + 1) o lt (omega arith)) at h)

    long : 10 ≤ o → o ≡ 2
    long le = omega (
      arith,
      prefix_length (codes "bytes 2-") (range_prefix o) h,
      two_digits (o + 1) o le (omega (arith, le)),
      length-append (decimal o) (codes "-"),
    )

served :
    (bs : List ℕ) (offset : ℕ) (a : Answer (List ℕ × ℕ))
    → (let x : GoError ⊎ Answer (List ℕ × ℕ) = inr (record {
      head = head_of bs;
      content_range = some (codes "bytes 2-");
      body = (drop 2 bs, 9);
    }) in
        x ≡ inr a)
    → has_prefix (to_string a.content_range) (range_prefix offset) ≡ true
    → a.body.0 ≡ drop offset bs
served bs offset a q p = rw (offset_two offset (rw (← ap range_of q) at p)) (sym (ap body_of q))
  where
    range_of : GoError ⊎ Answer (List ℕ × ℕ) → Text
    range_of (inl e) = []
    range_of (inr x) = to_string x.content_range

    body_of : GoError ⊎ Answer (List ℕ × ℕ) → List ℕ
    body_of (inl e) = []
    body_of (inr x) = x.body.0

-- What the service answers for a tag is of the object that the tag names.
pub memory-ServesVersion :
    (bucket key : Text) (version : List ℕ)
    → ServesVersion memory_api bucket key version version (λ b. Unit {0}) frail_content
memory-ServesVersion bucket key version = record {
  bodies = frail-IsPartial;
  ranged = λ ctx offset m a q p. (tt, at (lookup key m) offset a q p);
}
  where
    right :
        (bs : List ℕ) (offset : ℕ) (a : Answer (List ℕ × ℕ))
        → answer_to bs (some (range_from offset)) ≡ inr a
        → has_prefix (to_string a.content_range) (range_prefix offset) ≡ true
        → a.body.0 ≡ drop offset bs
    right bs offset a q p = elim (Bool-cases (text_eq (range_from offset) (range_from 2))) [
      | inr miss ↦ absurd (ground (arith, miss, q))
      | inl hit ↦ served bs offset a (ground (arith, hit, q)) p
    ]

    at :
        (o : Option (List ℕ)) (offset : ℕ) (a : Answer (List ℕ × ℕ))
        → found o (some (range_from offset)) (some version) ≡ inr a
        → has_prefix (to_string a.content_range) (range_prefix offset) ≡ true
        → a.body.0 ≡ drop offset version
    at none offset a q p = cc
    at (some bs) offset a q p = elim (Bool-cases (text_eq bs version)) [
      | inr changed ↦ absurd (ground (arith, changed, q))
      | inl kept ↦ rw (← eq_of_text_eq bs version kept) (right bs offset a (rw kept at q) p)
    ]
