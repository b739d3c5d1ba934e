-- ===== src/Quota/Breaker.antt =====
-- What a recorded call does to the circuit breaker and to the budget of the day.
use achilles.Prelude.{
  ℕ, suc, ◌≤◌, ◌<◌, String, ◌≡◌, refl, ap, Bool, true, false, not, ◌==◌, leb, none, some, [], ◌∷◌,
  ◌++◌, All, arith, length, length-append, if◌then◌else◌, ok, Bool-cases, inl, inr,
}
use achilles.Prelude.Order.{insertion_sort-last, sort_desc}
use achilles.Table
use achilles.Quota.{
  CallStatus, RemoteCall, Rows, EngineSpec, is_of_day, counts, is_refused, is_failure, over_quota,
  usage_today, streak_of, consecutive_failures, record_call, remote_budget_refusal,
}

recorded :
    (r : RemoteCall) (rows rows' : Rows) → record_call r rows ≡ ok rows' → rows' ≡ rows ++ r ∷ []
unfolding record_call Table.insert
recorded r rows rows' h = ground arith

select-last :
    (p : RemoteCall → Bool) (rows : Rows) (r : RemoteCall)
    → Table.select p (rows ++ r ∷ [])
      ≡ (if p r then Table.select p rows ++ r ∷ [] else Table.select p rows)
unfolding Table.select
select-last p [] r = refl
select-last p (x ∷ rows) r = elim (Bool-cases (p r)) [
  | inl e ↦ rw (select-last p rows r, e) (ground arith)
  | inr n ↦ rw (select-last p rows r, n) (ground arith)
]

select-earlier :
    (p : RemoteCall → Bool) (rows : Rows) (r : RemoteCall)
    → All (λ x. x.created_at < r.created_at) rows
    → All (λ x. leb r.created_at x.created_at ≡ false) (Table.select p rows)
unfolding Table.select
select-earlier p [] r h = tt
select-earlier p (x ∷ rows) r (e, h) = elim (Bool-cases (p x)) [
  | inl y ↦ rw y (ground (arith, e), select-earlier p rows r h)
  | inr n ↦ rw n (select-earlier p rows r h)
]

-- The number of consecutive failures after a call.
abbrev pub next_streak : CallStatus → ℕ → ℕ
next_streak CallStatus.success n = 0
next_streak CallStatus.failure n = suc n
next_streak CallStatus.refused n = n

-- A call that is recorded later than all others extends its engine's streak if it failed, ends it if
-- it succeeded, and leaves it if it was refused; the streaks of other engines stay as they were.
pub consecutive_failures-record_call :
    (engine_id : String) (r : RemoteCall) (rows rows' : Rows)
    → record_call r rows ≡ ok rows'
    → All (λ x. x.created_at < r.created_at) rows
    → consecutive_failures engine_id rows' ≡ (
        if r.engine_id == engine_id
        then next_streak r.status (consecutive_failures engine_id rows)
        else consecutive_failures engine_id rows)
unfolding consecutive_failures
consecutive_failures-record_call engine_id r rows rows' h later =
    rw (recorded r rows rows' h, select-last (counts engine_id) rows r)
      (elim (Bool-cases (r.engine_id == engine_id)) [
        | inr n ↦ rw n refl
        | inl y ↦ rw y (by_status r.status last)
      ])
  where
    counted : Rows
    counted = Table.select (counts engine_id) rows

    sorted : Rows → Rows
    sorted = sort_desc (λ x. x.created_at)

    n : ℕ
    n = streak_of (sorted counted)

    last : streak_of (sorted (counted ++ r ∷ [])) ≡ (if is_failure r.status then suc n else 0)
    last = ap streak_of (
        insertion_sort-last (λ x y. leb y.created_at x.created_at) counted r
          (select-earlier (counts engine_id) rows r later))

    by_status :
        (s : CallStatus)
        → streak_of (sorted (counted ++ r ∷ [])) ≡ (if is_failure s then suc n else 0)
        → streak_of (sorted (if not (is_refused s) then counted ++ r ∷ [] else counted))
          ≡ next_streak s n
    by_status CallStatus.success e = e
    by_status CallStatus.failure e = e
    by_status CallStatus.refused e = refl

length-select_last :
    (p : RemoteCall → Bool) (rows : Rows) (r : RemoteCall)
    → length (Table.select p (rows ++ r ∷ [])) ≤ suc (length (Table.select p rows))
length-select_last p rows r = elim (Bool-cases (p r)) [
  | inl y ↦
      rw (select-last p rows r, y) (omega (arith, length-append (Table.select p rows) (r ∷ [])))
  | inr n ↦ rw (select-last p rows r, n) (omega arith)
]

-- Where the test lets a remote engine be called, recording the call keeps the engine within its
-- requests of the day.
pub allowed_call_is_within_quota :
    (engine : EngineSpec) (cooling_at now : ℕ) (rows rows' : Rows) (r : RemoteCall) (limit : ℕ)
    → engine.remote ≡ true
    → engine.max_requests_per_day ≡ some limit
    → remote_budget_refusal engine cooling_at now (some rows) ≡ none
    → record_call r rows ≡ ok rows'
    → (usage_today engine.id now rows').requests ≤ limit
unfolding remote_budget_refusal
allowed_call_is_within_quota engine cooling_at now rows rows' r limit remote limited allowed h =
    rw (recorded r rows rows' h)
      (omega (arith, length-select_last (is_of_day engine.id now) rows r, below))
  where
    quota : over_quota engine (usage_today engine.id now rows) ≡ none
    quota = ground (arith, remote, allowed)

    below : length (Table.select (is_of_day engine.id now) rows) < limit
    below = ground (arith, quota, limited)
