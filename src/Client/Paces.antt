-- ===== src/Client/Paces.antt =====
-- How far apart one pacer releases requests, and that the four pacers do not disturb each other.
use budget_analyzer_api_test.Base.{
  ℕ, ◌+◌, ◌≤◌, ◌≡◌, refl, ◌∙◌, ap, Bool, true, false, ◌&&◌, List, [], ◌∷◌, arith, ◌==◌,
  if◌then◌else◌, Option, none, some, inl, inr, Bool-cases, String, leb, length, string_eq, nat_eq,
  eq_of_==, bool_eq, option_eq,
}
use budget_analyzer_api_test.Base.{max, ◌*◌}
use budget_analyzer_api_test.Client.{
  PublicRatePolicyName, login_initiation, login_completion, session_operations, api_requests,
  PublicRatePolicy, RequestPacer, Reading, delay, wait, GatewayRequestPacing, pacer_of, with_pacer,
  policy_name_eq, classify_public_rate_policy, gateway_wait,
}

-- The pacer after a sequence of calls.
abbrev pub wait_all : RequestPacer → List Reading → RequestPacer
wait_all p [] = p
wait_all p (r ∷ rs) = wait_all (wait p r) rs

-- Each sleep lasts at least as long as it is asked to, as `time.sleep` documents.
abbrev pub sleeps_enough : RequestPacer → List Reading → Bool
sleeps_enough p [] = true
sleeps_enough p (r ∷ rs) = leb (r.now + delay p r.now) r.released && sleeps_enough (wait p r) rs

-- No reading is earlier than one before it, as `time.monotonic` documents.
abbrev pub is_monotonic : ℕ → List Reading → Bool
is_monotonic last [] = true
is_monotonic last (r ∷ rs) = leb last r.now && leb r.now r.released && is_monotonic r.released rs

-- The time of the last release.
abbrev pub last_release : Reading → List Reading → ℕ
last_release r [] = r.released
last_release r (s ∷ rs) = last_release s rs

-- The longest sleep that is asked for.
abbrev pub longest_delay : RequestPacer → List Reading → ℕ
longest_delay p [] = 0
longest_delay p (r ∷ rs) = max (delay p r.now) (longest_delay (wait p r) rs)

-- If each sleep lasts as long as it is asked to, n requests after the first are released no sooner
-- than n intervals after it.
pub wait_rate :
    (p : RequestPacer) (r : Reading) (rs : List Reading)
    → sleeps_enough p (r ∷ rs) ≡ true
    → r.released + length rs * p.minimum_interval ≤ last_release r rs
unfolding wait delay
wait_rate p r [] h = omega arith
wait_rate p r (s ∷ rs) h = ground (arith, wait_rate (wait p r) s rs)

-- The next release is at most one interval after the last one.
abbrev is_due : RequestPacer → ℕ → Bool
is_due p last = elim p.next_request_at [
  | none ↦ true
  | some next ↦ leb next (last + p.minimum_interval)
]

longest_delay_lem :
    (p : RequestPacer) (last : ℕ) (rs : List Reading)
    → is_due p last ≡ true
    → is_monotonic last rs ≡ true
    → longest_delay p rs ≤ p.minimum_interval
unfolding wait delay
longest_delay_lem p last [] d m = omega arith
longest_delay_lem p last (r ∷ rs) d m = ground (arith, longest_delay_lem (wait p r) r.released rs)

-- With a monotonic clock, no call of a new pacer asks to sleep for longer than one interval.
pub wait_delay :
    (p : RequestPacer) (r : Reading) (rs : List Reading)
    → p.next_request_at ≡ none
    → is_monotonic 0 (r ∷ rs) ≡ true
    → longest_delay p (r ∷ rs) ≤ p.minimum_interval
wait_delay p r rs h m = longest_delay_lem p 0 (r ∷ rs) (ground arith) m

-- A request to a target, and the readings of its pacer's call.
abbrev pub Call : Type 0
Call = String × Reading

module _ (url_path : String → String) where
  abbrev pub gateway_wait_all : GatewayRequestPacing → List Call → GatewayRequestPacing
  gateway_wait_all g [] = g
  gateway_wait_all g ((target, r) ∷ calls) =
      gateway_wait_all (gateway_wait url_path g target r) calls

  abbrev pub is_under : PublicRatePolicyName → Option PublicRatePolicy → Bool
  is_under name none = false
  is_under name (some policy) = policy.name == name

  -- The readings of the calls under one policy.
  abbrev pub readings_under : PublicRatePolicyName → List Call → List Reading
  readings_under name [] = []
  readings_under name ((target, r) ∷ calls) =
      let rest = readings_under name calls in
      if is_under name (classify_public_rate_policy url_path target) then r ∷ rest else rest

  pacer-with_pacer :
      (g : GatewayRequestPacing) (name other : PublicRatePolicyName) (p : RequestPacer)
      → pacer_of (with_pacer g other p) name ≡ (if other == name then p else pacer_of g name)
  unfolding policy_name_eq
  pacer-with_pacer g login_initiation login_initiation p = refl
  pacer-with_pacer g login_initiation login_completion p = refl
  pacer-with_pacer g login_initiation session_operations p = refl
  pacer-with_pacer g login_initiation api_requests p = refl
  pacer-with_pacer g login_completion login_initiation p = refl
  pacer-with_pacer g login_completion login_completion p = refl
  pacer-with_pacer g login_completion session_operations p = refl
  pacer-with_pacer g login_completion api_requests p = refl
  pacer-with_pacer g session_operations login_initiation p = refl
  pacer-with_pacer g session_operations login_completion p = refl
  pacer-with_pacer g session_operations session_operations p = refl
  pacer-with_pacer g session_operations api_requests p = refl
  pacer-with_pacer g api_requests login_initiation p = refl
  pacer-with_pacer g api_requests login_completion p = refl
  pacer-with_pacer g api_requests session_operations p = refl
  pacer-with_pacer g api_requests api_requests p = refl

  gateway_step :
      (g : GatewayRequestPacing) (name : PublicRatePolicyName) (o : Option PublicRatePolicy)
      (r : Reading)
      → pacer_of
          (elim o [
            | none ↦ g
            | some policy ↦ with_pacer g policy.name (wait (pacer_of g policy.name) r)
          ])
          name
        ≡ (if is_under name o then wait (pacer_of g name) r else pacer_of g name)
  gateway_step g name none r = refl
  gateway_step g name (some policy) r =
      let put = pacer-with_pacer g name policy.name (wait (pacer_of g policy.name) r) in
      elim (Bool-cases (policy.name == name)) [
        | inl same ↦
            put
            ∙ ap (λ n. if policy.name == name then wait (pacer_of g n) r else pacer_of g name)
                (eq_of_== policy.name name same)
        | inr other ↦ ground (arith, put)
      ]

  -- Each policy's pacer sees its own requests only: after any interleaving of requests it is as after
  -- the calls for its own policy alone.
  pub gateway-pacer_of :
      (g : GatewayRequestPacing) (name : PublicRatePolicyName) (calls : List Call)
      → pacer_of (gateway_wait_all g calls) name
        ≡ wait_all (pacer_of g name) (readings_under name calls)
  unfolding gateway_wait
  gateway-pacer_of g name [] = refl
  gateway-pacer_of g name ((target, r) ∷ calls) =
      let o = classify_public_rate_policy url_path target in
      let step = gateway_step g name o r in
      let later = gateway-pacer_of (gateway_wait url_path g target r) name calls in
      later
      ∙ ap (λ p. wait_all p (readings_under name calls)) step
      ∙ elim (Bool-cases (is_under name o)) [ inl own ↦ rw own refl | inr other ↦ rw other refl ]
