-- ===== src/Data/Bulk/Laws.antt =====
-- The bulk delete of web/src/pages/Data.tsx.
use ku_crud.Base.{
  ℕ, zero, suc, ◌+◌, ◌-◌, ◌≤◌, ◌<◌, String, ◌≡◌, refl, sym, ap, ◌∙◌, ◌⊎◌, inl, inr, false, none,
  some, List, [], ◌∷◌, ◌++◌, arith, eqb, if◌then◌else◌, Bool-cases, is_some, length, take, drop,
  All,
}
use Prim.Native.Nat.{min}
use mathlib.Core.List.{append_assoc, append-nil}
use ku_crud.Api.{Request, Result, ok, err, Failure}
use ku_crud.Data.Bulk.{
  BulkRes, BulkFailure, BulkRun, bulk_request, absorb, delete_chunks, bulk_delete,
}

abbrev pub IsChunk : List String → Type 0
IsChunk c = (0 < length c) × (length c ≤ 500)

-- chunks of keys, each with what the server has answered
abbrev pub Answered : Type 0
Answered = List (List String × BulkRes)

abbrev pub keys_of : Answered → List String
keys_of [] = []
keys_of ((c, res) ∷ cs) = c ++ keys_of cs

abbrev pub requests_of : String → Answered → List Request
requests_of name [] = []
requests_of name ((c, res) ∷ cs) = bulk_request name c ∷ requests_of name cs

abbrev pub deleted_by : Answered → ℕ
deleted_by [] = 0
deleted_by ((c, res) ∷ cs) = res.deleted + deleted_by cs

abbrev pub failures_of : Answered → List BulkFailure
failures_of [] = []
failures_of ((c, res) ∷ cs) = res.failures ++ failures_of cs

module _ (name : String) (server : Request → Result BulkRes) where
  -- every key has been sent
  pub record SendsAll (keys : List String) (done : Answered) (before after : BulkRun) : Type 0 where
    pub in_order : keys_of done ≡ keys
    pub sent : after.sent ≡ before.sent ++ requests_of name done
    pub error : after.error ≡ none

  -- the server has answered a request for the next keys with an error; none is sent after it
  pub record Fails (keys : List String) (done : Answered) (before after : BulkRun) : Type 0 where
    pub chunk : List String
    pub rest : List String
    pub reason : Failure
    pub in_order : keys_of done ++ (chunk ++ rest) ≡ keys
    pub size : IsChunk chunk
    pub failed : server (bulk_request name chunk) ≡ err reason
    pub sent : after.sent ≡ before.sent ++ (requests_of name done ++ bulk_request name chunk ∷ [])
    pub error : after.error ≡ some reason

  -- What sending keys makes of what was sent and collected before: some chunks have been answered
  -- well, and what they deleted and could not delete is added up; after them either no key is left or
  -- a request has failed.
  pub record Sends (keys : List String) (before after : BulkRun) : Type 0 where
    pub done : Answered
    pub answered : All (λ c. IsChunk (c.0) × (server (bulk_request name (c.0)) ≡ ok (c.1))) done
    pub deleted : after.deleted ≡ before.deleted + deleted_by done
    pub failures : after.failed ≡ before.failed ++ failures_of done
    pub outcome : SendsAll keys done before after ⊎ Fails keys done before after

length-take : (n : ℕ) (l : List String) → length (take n l) ≡ min n (length l)
length-take zero l = omega arith
length-take (suc n) [] = omega arith
length-take (suc n) (x ∷ l) = omega (arith, length-take n l)

length-drop : (n : ℕ) (l : List String) → length (drop n l) ≡ length l - n
length-drop zero l = omega arith
length-drop (suc n) [] = omega arith
length-drop (suc n) (x ∷ l) = omega (arith, length-drop n l)

take-append-drop : (n : ℕ) (l : List String) → take n l ++ drop n l ≡ l
take-append-drop zero l = refl
take-append-drop (suc n) [] = refl
take-append-drop (suc n) (x ∷ l) = rw (take-append-drop n l)

some_length : (l : List String) → eqb (length l) 0 ≡ false → 0 < length l
some_length l h = ground arith

first-IsChunk : (keys : List String) → eqb (length keys) 0 ≡ false → IsChunk (take 500 keys)
first-IsChunk keys some_key = omega (arith, length-take 500 keys, some_length keys some_key)

module _ (name : String) (server : Request → Result BulkRes) where
  Sends-nothing :
      (keys : List String) (run : BulkRun)
      → length keys ≤ 0
      → run.error ≡ none
      → Sends name server keys run run
  Sends-nothing [] run h well = record {
    done = [];
    answered = tt;
    deleted = omega arith;
    failures = sym (append-nil _);
    outcome = inl (record { in_order = refl; sent = sym (append-nil _); error = well });
  }
  Sends-nothing (k ∷ keys) run h well = absurd (omega arith)

  Sends-failed :
      (keys : List String) (run : BulkRun) (e : Failure)
      → IsChunk (take 500 keys)
      → server (bulk_request name (take 500 keys)) ≡ err e
      → Sends name server keys run
          (absorb name server run (bulk_request name (take 500 keys)) (err e))
  Sends-failed keys run e chunk failed = record {
    done = [];
    answered = tt;
    deleted = omega arith;
    failures = sym (append-nil _);
    outcome = inr (record {
      chunk = take 500 keys;
      rest = drop 500 keys;
      reason = e;
      in_order = take-append-drop 500 keys;
      size = chunk;
      failed = failed;
      sent = refl;
      error = refl;
    });
  }

  outcome-chunk :
      (keys : List String) (run after : BulkRun) (res : BulkRes) (done : Answered)
      → (let r = bulk_request name (take 500 keys) in
          SendsAll name server (drop 500 keys) done (absorb name server run r (ok res)) after
          ⊎ Fails name server (drop 500 keys) done (absorb name server run r (ok res)) after)
      → SendsAll name server keys ((take 500 keys, res) ∷ done) run after
        ⊎ Fails name server keys ((take 500 keys, res) ∷ done) run after
  outcome-chunk keys run after res done (inl s) = inl (record {
    in_order = ap (λ l. take 500 keys ++ l) s.in_order ∙ take-append-drop 500 keys;
    sent = s.sent ∙ append_assoc run.sent _ _;
    error = s.error;
  })
  outcome-chunk keys run after res done (inr s) = inr (record {
    chunk = s.chunk;
    rest = s.rest;
    reason = s.reason;
    in_order =
        append_assoc (take 500 keys) (keys_of done) (s.chunk ++ s.rest)
        ∙ ap (λ l. take 500 keys ++ l) s.in_order
        ∙ take-append-drop 500 keys;
    size = s.size;
    failed = s.failed;
    sent = s.sent ∙ append_assoc run.sent _ _;
    error = s.error;
  })

  -- One chunk that is answered well, and then what the rest of the keys sends.
  Sends-chunk :
      (keys : List String) (run after : BulkRun) (res : BulkRes)
      → IsChunk (take 500 keys)
      → server (bulk_request name (take 500 keys)) ≡ ok res
      → Sends name server
          (drop 500 keys)
          (absorb name server run (bulk_request name (take 500 keys)) (ok res))
          after
      → Sends name server keys run after
  Sends-chunk keys run after res chunk well s = record {
    done = (take 500 keys, res) ∷ s.done;
    answered = ((chunk, well), s.answered);
    deleted = omega (arith, s.deleted);
    failures = s.failures ∙ append_assoc run.failed _ _;
    outcome = outcome-chunk keys run after res s.done s.outcome;
  }

  delete_chunks-Sends :
      (rounds : ℕ) (keys : List String) (run : BulkRun)
      → length keys ≤ rounds
      → run.error ≡ none
      → Sends name server keys run (delete_chunks name server rounds keys run)
  unfolding delete_chunks
  delete_chunks-Sends zero keys run enough well = Sends-nothing keys run enough well
  delete_chunks-Sends (suc rounds) keys run enough well = elim (Bool-cases (eqb (length keys) 0)) [
    | inl empty ↦ rw empty (Sends-nothing keys run (ground arith) well)
    | inr more ↦ rw more (
        by_answer more (server (bulk_request name (take 500 keys))) refl
          (λ next. delete_chunks-Sends rounds (drop 500 keys) next))
  ]
    where
      by_answer :
          eqb (length keys) 0 ≡ false
          → (a : Result BulkRes) → server (bulk_request name (take 500 keys)) ≡ a
          → ((next : BulkRun)
              → length (drop 500 keys) ≤ rounds
              → next.error ≡ none
              → Sends name server
                  (drop 500 keys)
                  next
                  (delete_chunks name server rounds (drop 500 keys) next))
          → Sends name server keys run (
              let next = absorb name server run (bulk_request name (take 500 keys)) a in
              let rest = delete_chunks name server rounds (drop 500 keys) next in
              if is_some next.error then next else rest)
      by_answer more (err e) same ih = Sends-failed keys run e (first-IsChunk keys more) same
      by_answer more (ok res) same ih =
          Sends-chunk keys run _ res (first-IsChunk keys more) same
            (ih _ (omega (arith, length-drop 500 keys, some_length keys more)) refl)

  -- A bulk delete sends the selected keys in order to the table of that name, each once, in chunks of
  -- 1 to 500. Each request but perhaps the last is answered well, and what these answers say was
  -- deleted and could not be deleted is added up. Either they cover all keys and no error is
  -- reported, or the last request was answered with an error, which is reported, and the keys after
  -- it are not sent.
  pub bulk_delete-Sends :
      (keys : List String)
      → Sends name server keys
          (record { sent = []; deleted = 0; failed = []; error = none })
          (bulk_delete name server keys)
  unfolding bulk_delete
  bulk_delete-Sends keys =
      delete_chunks-Sends (length keys) keys
        (record { sent = []; deleted = 0; failed = []; error = none }) (omega arith) refl
