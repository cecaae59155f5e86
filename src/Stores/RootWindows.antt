-- ===== src/Stores/RootWindows.antt =====
-- `RootWindows` of core/stores.js: one window over the adopted snapshots, both roots of a snapshot in
-- one record. A method that changes the window returns the new one; `adopt` may throw.
pub mod Eviction
pub mod Bounds
pub mod Newest
pub mod Adoption
pub mod Freshness
pub mod Members
use dash_mno_verify.Prelude.{
  ℕ, zero, suc, ◌+◌, ◌-◌, List, [], ◌∷◌, map, Bool, true, false, not, ◌&&◌, ◌||◌, leb, ltb, nat_beq,
  any_of, all_of, ◌==◌, string_eq, nat_eq, pair_eq, length, keep_if, last?, String, Option, some,
  none, Result, ok, err, throw_if, ◌>>=◌, ◌>>◌, if◌then◌else◌, get_elem?,
}
use dash_mno_verify.Prelude.JsMap.{JsMap, put, delete}
use dash_mno_verify.Stores.Order.{sort_by, slice_last, distinct}

-- A snapshot object: its property names, and the properties that the window reads.
pub record Snapshot : Type 0 where
  pub keys : List String
  pub height : ℕ
  pub root : String
  pub sha_root : Option String
  pub leaves : List String

-- The argument of `adopt`, which is the record that the window keeps. `order` is none for null.
pub record Snap : Type 0 where
  pub height : ℕ
  pub root : String
  pub sha_root : Option String
  pub ts : ℕ
  pub order : Option String
  pub block_hash : Option String
  pub set_commitment : Option String
  pub snapshot : Option Snapshot

-- `pinned` is what `pinnedRoots()` answers at the call: a set of roots, or null.
pub record RootWindows : Type 0 where
  pub window : ℕ
  pub max_leaves : ℕ
  pub snaps : List Snap

pub data AdoptError : Type 0 where
  unexpected_field root_mismatch height_mismatch sha_root_mismatch unknown_order : AdoptError

abbrev pub snapshot_fields : List String
snapshot_fields =
    "version" ∷ "height" ∷ "blockHash" ∷ "depth" ∷ "ts" ∷ "root" ∷ "shaRoot" ∷ "leaves" ∷ []

-- `String(x ?? null)`
abbrev text_of : Option String → String
text_of none = "null"
text_of (some s) = s

-- The checks of a snapshot against the record that carries it.
unfoldable pub check_snapshot : Snap → Option Snapshot → Result AdoptError (Unit {0})
check_snapshot a none = ok tt
check_snapshot a (some s) = do
  throw_if (not (all_of (λ k. any_of (λ f. f == k) snapshot_fields) s.keys))
      AdoptError.unexpected_field
  throw_if (not (s.root == a.root)) AdoptError.root_mismatch
  throw_if (not (nat_beq s.height a.height)) AdoptError.height_mismatch
  throw_if (not (text_of a.sha_root == text_of s.sha_root)) AdoptError.sha_root_mismatch

-- `KNOWN_ORDERS`: null and "proRegTxHash".
unfoldable pub known_order : Option String → Bool
known_order none = true
known_order (some o) = o == "proRegTxHash"

-- `${height}|${order ?? "legacy"}`
abbrev pub key_of : Snap → ℕ × String
key_of s = (s.height, (elim s.order [ none ↦ "legacy" | some o ↦ o ]))

unfoldable pub by_key : List Snap → JsMap (ℕ × String) Snap → JsMap (ℕ × String) Snap
by_key [] m = m
by_key (s ∷ rest) m = by_key rest (put (key_of s) s m)

abbrev pub values : JsMap (ℕ × String) Snap → List Snap
values m = map (λ e. e.1) m

-- Every record, the adopted one at the end of its height.
unfoldable pub all_snaps : Snap → List Snap → List Snap
unfolding by_key
all_snaps a snaps =
    sort_by (λ s. s.height) (values (put (key_of a) a (delete (key_of a) (by_key snaps []))))

abbrev pub heights_of : List Snap → List ℕ
heights_of snaps = distinct (map (λ s. s.height) snaps)

-- The records of the newest `window` heights.
unfoldable pub trim : ℕ → List Snap → List Snap
trim window all =
    let kept = slice_last window (heights_of all) in
    keep_if (λ s. any_of (nat_beq s.height) kept) all

abbrev leaves_of : Option Snapshot → ℕ
leaves_of none = 0
leaves_of (some s) = length s.leaves

unfoldable pub retained_leaves : List Snap → ℕ
retained_leaves [] = 0
retained_leaves (s ∷ rest) = leaves_of s.snapshot + retained_leaves rest

abbrev is_pinned_snap : Option (List String) → Snap → Bool
is_pinned_snap none s = false
is_pinned_snap (some pinned) s =
    any_of (λ r. r == s.root) pinned
    || (elim s.sha_root [ none ↦ false | some sha ↦ any_of (λ r. r == sha) pinned ])

-- `#pinnedHeights()`, as a test.
unfoldable pub is_pinned : Option (List String) → List Snap → ℕ → Bool
is_pinned pinned snaps h = any_of (λ s. nat_beq s.height h && is_pinned_snap pinned s) snaps

abbrev first_of_list : List ℕ → Option ℕ
first_of_list xs = get_elem? xs 0

-- Of the heights but the newest: the oldest that is not pinned, else the oldest.
unfoldable pub evict_from : (ℕ → Bool) → List ℕ → ℕ → Option ℕ
evict_from pinned heights newest =
    let candidates = keep_if (λ h. not (nat_beq h newest)) heights in
    elim (first_of_list (keep_if (λ h. not (pinned h)) candidates)) [
      | some free ↦ some free
      | none ↦ first_of_list candidates
    ]

-- With one height or none there is no target.
unfoldable pub evict_at : (ℕ → Bool) → List ℕ → Option ℕ
evict_at pinned heights =
    if leb (length heights) 1
    then none
    else (elim (last? heights) [ none ↦ none | some newest ↦ evict_from pinned heights newest ])

-- The height to evict.
unfoldable pub evict_target : Option (List String) → List Snap → Option ℕ
unfolding evict_at
evict_target pinned snaps = evict_at (is_pinned pinned snaps) (heights_of snaps)

-- `#enforceLeafBound()`: the loop, on fuel.
unfoldable pub enforce_loop : ℕ → ℕ → Option (List String) → List Snap → List Snap
enforce_loop zero max_leaves pinned snaps = snaps
enforce_loop (suc fuel) max_leaves pinned snaps = elim (ltb max_leaves (retained_leaves snaps)) [
  | false ↦ snaps
  | true ↦ elim (evict_target pinned snaps) [
    | none ↦ snaps
    | some target ↦
        enforce_loop fuel max_leaves pinned (keep_if (λ s. not (nat_beq s.height target)) snaps)
  ]
]

unfoldable pub enforce_leaf_bound : ℕ → Option (List String) → List Snap → List Snap
unfolding enforce_loop
enforce_leaf_bound max_leaves pinned snaps =
    if nat_beq max_leaves 0 then snaps else enforce_loop (length snaps) max_leaves pinned snaps

unfoldable pub adopt : Option (List String) → Snap → RootWindows → Result AdoptError RootWindows
unfolding check_snapshot
adopt pinned a w = do
  check_snapshot a a.snapshot
  throw_if (not (known_order a.order)) AdoptError.unknown_order
  ok (record w {
    snaps = enforce_leaf_bound w.max_leaves pinned (trim w.window (all_snaps a w.snaps));
  })

unfoldable pub current : RootWindows → Option Snap
current w = last? w.snaps

-- `Math.max(...)` of the heights, or null.
unfoldable pub max_height : List Snap → Option ℕ
max_height [] = none
max_height (s ∷ rest) = elim (max_height rest) [
  | none ↦ some s.height
  | some h ↦ some (if ltb h s.height then s.height else h)
]

unfoldable pub is_recent : String → RootWindows → Bool
is_recent root w = any_of (λ s. s.root == root) w.snaps

abbrev sha_is : String → Option String → Bool
sha_is sha none = false
sha_is sha (some s) = s == sha

unfoldable pub sha_is_recent : String → RootWindows → Bool
sha_is_recent sha w = any_of (λ s. sha_is sha s.sha_root) w.snaps

abbrev newer : Option ℕ → ℕ → Option ℕ
newer none ts = some ts
newer (some t) ts = some (if ltb t ts then ts else t)

-- The loop of `tsOf`: the newest timestamp so far.
unfoldable pub ts_loop : String → Option ℕ → List Snap → Option ℕ
ts_loop root newest [] = newest
ts_loop root newest (s ∷ rest) =
    ts_loop root (if s.root == root then newer newest s.ts else newest) rest

unfoldable pub ts_of : String → RootWindows → Option ℕ
unfolding ts_loop
ts_of root w = ts_loop root none w.snaps

-- `Math.max(0, now - ts)` is the truncated difference.
unfoldable pub is_eligible_within : String → ℕ → ℕ → RootWindows → Bool
is_eligible_within root max_age now w =
    if not (is_recent root w)
    then false
    else if nat_beq max_age 0
    then true
    else (elim (ts_of root w) [ none ↦ false | some ts ↦ leb (now - ts) max_age ])

abbrev pub both_equal : Option String → Option String → Bool
both_equal (some a) (some b) = a == b
both_equal _ _ = false

unfoldable pub may_coexist : ℕ → Option String → Option String → RootWindows → Bool
may_coexist height block_hash set_commitment w =
    all_of (λ s. both_equal s.block_hash block_hash && both_equal s.set_commitment set_commitment)
      (keep_if (λ s. nat_beq s.height height) w.snaps)

unfoldable pub clear : RootWindows → RootWindows
clear w = record w { snaps = [] }

unfoldable pub drop_older_than : ℕ → RootWindows → RootWindows
drop_older_than cutoff w = record w { snaps = keep_if (λ s. leb cutoff s.ts) w.snaps }
