-- ===== src/Stores/RateLimiter.antt =====
-- `RateLimiter` of core/stores.js. `now` is what `Date.now()` answers, the same at each
-- ask of one call.
use dash_mno_verify.Prelude.{
  sym, ℕ, ◌+◌, ◌*◌, ◌≤◌, ◌<◌, ◌≡◌, inl, inr, refl, [], ◌∷◌, Bool, true, not, ltb, leb, length,
  keep_if, Option, some, none, Option-cases, Bool-cases, string_eq, String, if◌then◌else◌, arith,
}
use dash_mno_verify.Prelude.JsMap
use dash_mno_verify.Prelude.JsMap.{JsMap, length-put}

pub record Window : Type 0 where
  pub count : ℕ
  pub reset : ℕ

pub record RateLimiter : Type 0 where
  pub window_ms : ℕ
  pub max : ℕ
  pub max_keys : ℕ
  pub hits : JsMap String Window

unfoldable pub new : ℕ → ℕ → ℕ → RateLimiter
new window_seconds max max_keys = record {
  window_ms = window_seconds * 1000;
  max = max;
  max_keys = max_keys;
  hits = [];
}

unfoldable pub sweep : ℕ → JsMap String Window → JsMap String Window
sweep now hits = keep_if (λ e. not (ltb e.1.reset now)) hits

-- `while (hits.size >= maxKeys)`: the front of the map is the oldest key.
unfoldable pub evict : ℕ → JsMap String Window → JsMap String Window
evict max_keys [] = []
evict max_keys (e ∷ hits) =
    let rest = evict max_keys hits in if leb max_keys (length (e ∷ hits)) then rest else e ∷ hits

-- Room for a key that has no window.
unfoldable pub make_room : ℕ → ℕ → JsMap String Window → JsMap String Window
unfolding sweep evict
make_room now max_keys hits =
    if leb max_keys (length hits) then evict max_keys (sweep now hits) else hits

-- The key's window and the map it goes into: a window that is over, or none, is a fresh one.
unfoldable pub window_for : ℕ → RateLimiter → Option Window → Window × JsMap String Window
window_for now r none =
    (record { count = 0; reset = now + r.window_ms }, make_room now r.max_keys r.hits)
window_for now r (some e) =
    if ltb e.reset now
    then (record { count = 0; reset = now + r.window_ms }, r.hits)
    else (e, r.hits)

unfoldable pub allow : ℕ → String → RateLimiter → Bool × RateLimiter
unfolding window_for
allow now key r =
    let (e, hits) = window_for now r (JsMap.get key r.hits) in
    (
      leb (e.count + 1) r.max,
      record r { hits = JsMap.put key (record e { count = e.count + 1 }) hits },
    )

unfoldable pub would_allow_at : ℕ → ℕ → Option Window → Bool
would_allow_at now max none = true
would_allow_at now max (some e) = if ltb e.reset now then true else leb (e.count + 1) max

unfoldable pub would_allow : ℕ → String → RateLimiter → Bool
would_allow now key r = would_allow_at now r.max (JsMap.get key r.hits)

fits_one : (count max : ℕ) → count ≡ 0 → 0 < max → leb (count + 1) max ≡ true
fits_one count max none_yet h = ground arith

-- `wouldAllow` answers what `allow` answers at the same time, for a limiter whose maximum is not 0.
pub would_allow-eq-allow :
    (now : ℕ) (key : String) (r : RateLimiter)
    → 0 < r.max
    → would_allow now key r ≡ (allow now key r).0
unfolding allow would_allow would_allow_at window_for
would_allow-eq-allow now key r some_max = elim (Option-cases (JsMap.get key r.hits)) [
  | inl e ↦ rw e (sym (fits_one 0 r.max refl some_max))
  | inr (w, e) ↦ elim (Bool-cases (ltb w.reset now)) [
    | inl over ↦ rw (e, over) (sym (fits_one 0 r.max refl some_max))
    | inr young ↦ rw (e, young) refl
  ]
]

length-evict-lt :
    (max_keys : ℕ) (hits : JsMap String Window)
    → 0 < max_keys
    → length (evict max_keys hits) < max_keys
unfolding evict
length-evict-lt max_keys [] h = omega arith
length-evict-lt max_keys (e ∷ hits) h = ground (arith, length-evict-lt max_keys hits h)

length-make_room-lt :
    (now max_keys : ℕ) (hits : JsMap String Window)
    → 0 < max_keys
    → length (make_room now max_keys hits) < max_keys
unfolding make_room
length-make_room-lt now max_keys hits h =
    ground (arith, length-evict-lt max_keys (sweep now hits) h)

put_within :
    (key : String) (w : Window) (hits : JsMap String Window) (n : ℕ)
    → length hits < n
    → length (JsMap.put key w hits) ≤ n
put_within key w hits n h = ground (arith, length-put key w hits)

put_over :
    (key : String) (w old : Window) (hits : JsMap String Window) (n : ℕ)
    → JsMap.get key hits ≡ some old
    → length hits ≤ n
    → length (JsMap.put key w hits) ≤ n
put_over key w old hits n e h = rw (length-put key w hits, e) h

-- A call of `allow` keeps the number of keys within the bound, where the bound is not 0.
pub length-allow :
    (now : ℕ) (key : String) (r : RateLimiter)
    → 0 < r.max_keys
    → length r.hits ≤ r.max_keys
    → length (allow now key r).1.hits ≤ r.max_keys
unfolding allow window_for
length-allow now key r some_keys bounded = elim (Option-cases (JsMap.get key r.hits)) [
  | inl e ↦ rw e (
      put_within key _ (make_room now r.max_keys r.hits) r.max_keys
        (length-make_room-lt now r.max_keys r.hits some_keys))
  | inr (w, e) ↦ elim (Bool-cases (ltb w.reset now)) [
    | inl over ↦ rw (e, over) (put_over key _ w r.hits r.max_keys e bounded)
    | inr young ↦ rw (e, young) (put_over key _ w r.hits r.max_keys e bounded)
  ]
]
