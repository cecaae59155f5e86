-- ===== src/Stores/Tests.antt =====
-- The stores of core/stores.js at concrete inputs.
use dash_mno_verify.Prelude.{
  ℕ, ◌+◌, ◌≡◌, ◌≤◌, ◌⊎◌, refl, List, [], ◌∷◌, string_eq, length, String, some, none, ok, arith,
  false, true, any_of, ◌==◌, ◌&&◌, nat_beq, ◌||◌, leb, ◌-◌,
}
use dash_mno_verify.Prelude.JsMap
use dash_mno_verify.Stores.Order.{sort_by, insert_by, slice_last, distinct}
use dash_mno_verify.Stores.RootWindows
use dash_mno_verify.Stores.RootWindows.{
  Snap, Snapshot, heights_of, is_pinned, retained_leaves, evict_target, adopt, current,
  is_eligible_within,
}
use dash_mno_verify.Stores.RootWindows.Bounds.{adopt-bound}
use dash_mno_verify.Stores.RootWindows.Freshness.{is_eligible_within_iff}
use dash_mno_verify.Stores.RootWindows.Adoption.{current-adopt}
use dash_mno_verify.Stores.Semaphore
use dash_mno_verify.Stores.RateLimiter
use dash_mno_verify.Stores.RateLimiter.{allow, would_allow, would_allow-eq-allow, length-allow}
use dash_mno_verify.Stores.Semaphore.{calls, ends, IsGated, run_events, run_events-new}
use dash_mno_verify.Stores.Challenges.{take, Challenge, ChallengeStore}

abbrev snapshot : ℕ → String → List String → Snapshot
snapshot height root leaves = record {
  keys = "height" ∷ "root" ∷ "leaves" ∷ [];
  height = height;
  root = root;
  sha_root = none;
  leaves = leaves;
}

abbrev snap : ℕ → String → List String → Snap
snap height root leaves = record {
  height = height;
  root = root;
  sha_root = none;
  ts = 100 + height;
  order = none;
  block_hash = none;
  set_commitment = none;
  snapshot = some (snapshot height root leaves);
}

abbrev window : RootWindows.RootWindows
window = record {
  window = 8;
  max_leaves = 3;
  snaps = snap 5 "a" ("1" ∷ "2" ∷ []) ∷ snap 6 "b" ("3" ∷ []) ∷ [];
}

abbrev after : RootWindows.RootWindows
after = record window { snaps = snap 5 "a" ("1" ∷ "2" ∷ []) ∷ snap 7 "c" ("4" ∷ []) ∷ [] }

adopted : adopt (some ("a" ∷ [])) (snap 7 "c" ("4" ∷ [])) window ≡ ok after
unfolding adopt RootWindows.check_snapshot RootWindows.known_order RootWindows.all_snaps
    RootWindows.trim RootWindows.enforce_leaf_bound RootWindows.enforce_loop
    RootWindows.evict_target RootWindows.retained_leaves sort_by insert_by slice_last distinct
    JsMap.put JsMap.delete RootWindows.evict_from is_pinned
adopted = refl

adopt-bound_example : (retained_leaves after.snaps ≤ 3) ⊎ (length (heights_of after.snaps) ≤ 1)
adopt-bound_example =
    adopt-bound (some ("a" ∷ [])) (snap 7 "c" ("4" ∷ [])) window after adopted (omega arith)

current-adopt_example : current after ≡ some (snap 7 "c" ("4" ∷ []))
current-adopt_example =
    current-adopt (some ("a" ∷ [])) (snap 7 "c" ("4" ∷ [])) window after adopted
      (omega arith, (omega arith, tt))

is_eligible_within_iff_example :
    is_eligible_within "c" 60 1060 after
    ≡ any_of (λ (s : Snap). s.root == "c" && (nat_beq 60 0 || leb (1060 - s.ts) 60)) after.snaps
is_eligible_within_iff_example = is_eligible_within_iff "c" 60 1060 after

run_events-new_example : IsGated (
    run_events
      (calls 1 ∷ calls 2 ∷ calls 3 ∷ ends 0 ∷ [])
      (record { gate = Semaphore.new 1 1; running = [] }))
run_events-new_example = run_events-new (calls 1 ∷ calls 2 ∷ calls 3 ∷ ends 0 ∷ []) 1 1

abbrev challenge : Challenge
challenge = record { account = "alice"; root = some "a"; expires = 600005 }

abbrev pending : ChallengeStore
pending = record { ttl = 600000; max_pending = 2; pending = ("n1", challenge) ∷ []; held = [] }

-- A challenge is taken once.
taken_once :
    let (first, rest) = take 6 "n1" pending in
    (first ≡ some challenge) × ((take 6 "n1" rest).0 ≡ none)
unfolding take JsMap.get JsMap.delete
taken_once = (refl, refl)

abbrev limiter : RateLimiter.RateLimiter
limiter = record {
  window_ms = 60000;
  max = 2;
  max_keys = 1;
  hits = ("k", record { count = 2; reset = 70 }) ∷ [];
}

-- The third call in a window is refused, and a call after it is not.
third_call : ((allow 60 "k" limiter).0 ≡ false) × ((allow 80 "k" limiter).0 ≡ true)
unfolding allow JsMap.get RateLimiter.window_for
third_call = (refl, refl)
