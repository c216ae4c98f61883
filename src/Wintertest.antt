-- ===== src/Wintertest.antt =====
-- wintertest/wintertest.go: the checks that tests of client programs make on enqueued jobs. The keys
-- that SCAN replies with are a parameter, one list for each page.
use winter.Base.{
  ℕ, String, ℤ, ◌≡◌, refl, ◌∙◌, ap, Bool, true, false, ◌||◌, Option, none, some, List, [], ◌∷◌,
  ◌++◌, arith, ◌==◌, eq_iff, eq_refl, if◌then◌else◌, is_some, nat_eq, length, map, Bool-cases, inl,
  inr,
}
use winter.Redis.{Redis, Db, Value, to_map, elem}
use winter.Queue.Keys.{job_key}
use winter.Queue.Job.{JobRecord, text_of}
use winter.Queue.Link.{Link, Result, ok, err, Error, up, reached, call}
use winter.Queue.Api.{enqueue}
use winter.Queue.Refine.Enqueue.{is_duplicate}
use winter.Queue.Refine.Stored.{stored-Shows}

pub record Match : Type 0 where
  pub id : String
  pub kind : String
  pub queue : String
  pub payload : String

-- How a check ends: the test goes on, or is fatal for a reason.
pub data Check : Type 0 where
  passed marshal_failed scan_failed none_found none_matched wrong_count : Check

abbrev pub match_of : (String → Option Value) → Match
match_of m = record {
  id = text_of (m "id");
  kind = text_of (m "kind");
  queue = text_of (m "queue");
  payload = text_of (m "payload");
}

-- A page of the scan has the key.
abbrev pub some_page : String → List (List String) → Bool
some_page key [] = false
some_page key (keys ∷ pages) = elem key keys || some_page key pages

module _ (R : Redis) where
  -- HGETALL of a key, which fails for a key that holds a text, such as a result.
  abbrev pub read_hash : Link → String → Db R → Result (List (String × Value))
  read_hash link key db =
      if is_some (R.get db.strings key)
      then err (Error.redis_error "WRONGTYPE")
      else (call link (λ s. (R.hgetall s.hashes key, s)) db).0

  abbrev pub and_match : String → Result (List (String × Value)) → List Match → List Match
  and_match kind (err e) rest = rest
  and_match kind (ok vals) rest =
      if text_of (to_map vals "kind") == kind then match_of (to_map vals) ∷ rest else rest

  unfoldable pub match_keys : (String → Link) → String → Db R → List String → List Match
  unfolding call
  match_keys links kind db [] = []
  match_keys links kind db (key ∷ keys) =
      and_match kind (read_hash (links key) key db) (match_keys links kind db keys)

  abbrev pub and_page : List Match → Result (List Match) → Result (List Match)
  and_page l (ok r) = ok (l ++ r)
  and_page l (err e) = err e

  -- The pages of the scan, until the cursor is 0 again or a page fails.
  unfoldable pub find_jobs_by_kind :
      (String → Link) → String → Db R → List (Result (List String)) → Result (List Match)
  unfolding match_keys
  find_jobs_by_kind links kind db [] = ok []
  find_jobs_by_kind links kind db (err e ∷ pages) = err e
  find_jobs_by_kind links kind db (ok keys ∷ pages) =
      and_page (match_keys links kind db keys) (find_jobs_by_kind links kind db pages)

  abbrev pub has_payload : String → List Match → Bool
  has_payload payload [] = false
  has_payload payload (m ∷ ms) = m.payload == payload || has_payload payload ms

  abbrev pub matched : String → Result (List Match) → Check
  matched payload (err e) = scan_failed
  matched payload (ok []) = none_found
  matched payload (ok (m ∷ ms)) = if has_payload payload (m ∷ ms) then passed else none_matched

  -- The JSON of the expected task, or none when it cannot be encoded.
  unfoldable pub require_enqueued :
      (String → Link) → String → Option String → Db R → List (Result (List String)) → Check
  unfolding find_jobs_by_kind
  require_enqueued links kind none db pages = marshal_failed
  require_enqueued links kind (some payload) db pages =
      matched payload (find_jobs_by_kind links kind db pages)

  abbrev pub counted : ℕ → Result (List Match) → Check
  counted n (err e) = scan_failed
  counted n (ok ms) = if nat_eq (length ms) n then passed else wrong_count

  unfoldable pub require_enqueued_n :
      (String → Link) → String → ℕ → Db R → List (Result (List String)) → Check
  unfolding find_jobs_by_kind
  require_enqueued_n links kind n db pages = counted n (find_jobs_by_kind links kind db pages)

  abbrev pub require_none_enqueued :
      (String → Link) → String → Db R → List (Result (List String)) → Check
  require_none_enqueued links kind = require_enqueued_n links kind 0

  and_match-keeps :
      (kind payload : String) (r : Result (List (String × Value))) (rest : List Match)
      → has_payload payload rest ≡ true
      → has_payload payload (and_match kind r rest) ≡ true
  and_match-keeps kind payload (err e) rest h = h
  and_match-keeps kind payload (ok vals) rest h = ground (arith, h)

  has_payload-append :
      (payload : String) (l r : List Match)
      → has_payload payload (l ++ r) ≡ (has_payload payload l || has_payload payload r)
  has_payload-append payload [] r = refl
  has_payload-append payload (m ∷ l) r = ground (arith, has_payload-append payload l r)

  module _ (kind payload key : String) (db : Db R)
      (no_text : is_some (R.get db.strings key) ≡ false)
      (same_kind : text_of (to_map (R.hgetall db.hashes key) "kind") ≡ kind)
      (same_payload : text_of (to_map (R.hgetall db.hashes key) "payload") ≡ payload) where
    here_matched :
        (k : String) (rest : List Match)
        → k ≡ key
        → has_payload payload (and_match kind (read_hash up k db) rest) ≡ true
    unfolding call
    here_matched k rest e =
        rw (e, no_text, same_kind, eq_refl kind, same_payload, eq_refl payload) refl

    key_matched :
        (keys : List String)
        → elem key keys ≡ true
        → has_payload payload (match_keys (λ _. up) kind db keys) ≡ true
    unfolding match_keys
    key_matched [] h = cc
    key_matched (k ∷ keys) h = elim (Bool-cases (k == key)) [
      | inl e ↦ here_matched k _ ((eq_iff k key).0 e)
      | inr d ↦ and_match-keeps kind payload (read_hash up k db) _ (key_matched keys (rw d at h))
    ]

    abbrev found_in : List (List String) → List Match
    found_in [] = []
    found_in (keys ∷ pages) = match_keys (λ _. up) kind db keys ++ found_in pages

    find_lem :
        (pages : List (List String))
        → find_jobs_by_kind (λ _. up) kind db (map ok pages) ≡ ok (found_in pages)
    unfolding find_jobs_by_kind
    find_lem [] = refl
    find_lem (keys ∷ pages) = rw (find_lem pages) refl

    pages_matched :
        (pages : List (List String))
        → some_page key pages ≡ true
        → has_payload payload (found_in pages) ≡ true
    pages_matched [] h = cc
    pages_matched (keys ∷ pages) h = elim (Bool-cases (elem key keys)) [
      | inl e ↦
          rw
            (
              has_payload-append payload (match_keys (λ _. up) kind db keys) (found_in pages),
              key_matched keys e,
            )
            refl
      | inr d ↦
          has_payload-append payload (match_keys (λ _. up) kind db keys) (found_in pages)
          ∙ ground (arith, pages_matched pages (rw d at h))
    ]

    matched_some :
        (ms : List Match) → has_payload payload ms ≡ true → matched payload (ok ms) ≡ passed
    matched_some [] h = cc
    matched_some (m ∷ ms) h = rw h refl

    pub require_found :
        (pages : List (List String))
        → some_page key pages ≡ true
        → require_enqueued (λ _. up) kind (some payload) db (map ok pages) ≡ passed
    unfolding require_enqueued
    require_found pages h =
        rw (find_lem pages) (matched_some (found_in pages) (pages_matched pages h))

  -- RequireEnqueued finds what Enqueue has written: if the request of an Enqueue reaches the server
  -- and no live job owns the unique key, then the check for the job's kind and payload passes, on
  -- working links, when the pages of the scan contain the job's key, whatever else they contain,
  -- and that key holds no text.
  pub enqueued_found :
      (link : Link) (job : JobRecord) (uniq : String) (period : ℤ) (db : Db R)
      (pages : List (List String))
      → reached link ≡ true
      → is_duplicate R uniq period db ≡ false
      → is_some (R.get (enqueue R link job uniq period db).1.strings (job_key job.id)) ≡ false
      → some_page (job_key job.id) pages ≡ true
      → require_enqueued
          (λ _. up)
          job.kind
          (some job.payload)
          (enqueue R link job uniq period db).1
          (map ok pages)
        ≡ passed
  unfolding to_map
  enqueued_found link job uniq period db pages r fresh no_text scanned =
      let after = (enqueue R link job uniq period db).1 in
      let shown = stored-Shows R link job uniq period db r fresh in
      require_found job.kind job.payload (job_key job.id) after no_text
        (ap text_of (R.hgetall-map after.hashes (job_key job.id) "kind" ∙ shown.hash "kind"))
        (ap text_of (R.hgetall-map after.hashes (job_key job.id) "payload" ∙ shown.hash "payload"))
        pages scanned
