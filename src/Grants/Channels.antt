-- ===== src/Grants/Channels.antt =====
-- The comparisons of records in adapters/discord/grant_ledger.js.
use dash_mno_verify.Prelude.{
  List, [], ◌∷◌, ◌++◌, true, not, ◌&&◌, ◌||◌, String, string_eq, ◌==◌, eq_of_==, Option, none, some,
  ◌≡◌, refl, sym, ap, arith, ◌∙◌,
}
use dash_mno_verify.Grants.Discord.{
  Target, channel, ChannelGrant, includes, without, distinct_after, some_channels, channels_of,
  extra_targets, covering_targets, target_of, discord_adapter, cover_of,
}
use dash_mno_verify.Grants.Tracked.{Laws}

includes_same : (x t : String) (b : List String) → (x == t) ≡ true → includes x b ≡ includes t b
includes_same x t b e = ap (λ u. includes u b) (eq_of_== x t e)

pub includes-without :
    (t : String) (b xs : List String)
    → includes t (without b xs) ≡ (includes t xs && not (includes t b))
unfolding includes without
includes-without t b [] = refl
includes-without t b (x ∷ xs) = ground (arith, includes_same x t b, includes-without t b xs)

pub includes-++ :
    (t : String) (xs ys : List String) → includes t (xs ++ ys) ≡ (includes t xs || includes t ys)
unfolding includes
includes-++ t [] ys = refl
includes-++ t (x ∷ xs) ys = ground (arith, includes-++ t xs ys)

includes-distinct_after :
    (t : String) (held xs : List String)
    → (includes t (distinct_after held xs) || includes t held) ≡ (includes t xs || includes t held)
unfolding includes distinct_after
includes-distinct_after t held [] = refl
includes-distinct_after t held (x ∷ xs) = ground (
  arith,
  includes_same x t held,
  includes-distinct_after t held xs,
  includes-distinct_after t (x ∷ held) xs,
)

includes-distinct :
    (t : String) (xs : List String) → includes t (distinct_after [] xs) ≡ includes t xs
unfolding includes
includes-distinct t xs = ground (arith, includes-distinct_after t [] xs)

-- What is left of a record's channels, as `extraTargets` gives it.
some_channels-none : (cs : List String) → some_channels cs ≡ none → cs ≡ []
some_channels-none [] e = refl
some_channels-none (c ∷ cs) e = ground arith

orphan_or_none : Option Target → Target
orphan_or_none none = channel []
orphan_or_none (some o) = o

some_channels-some : (cs : List String) (o : Target) → some_channels cs ≡ some o → o ≡ channel cs
unfolding orphan_or_none
some_channels-some [] o e = ground arith
some_channels-some (c ∷ cs) o e = sym (ap orphan_or_none e)

-- The covering record of an orphan of another record names both records' channels.
includes-cover :
    (t : String) (cs ds : List String)
    → includes t (channels_of (covering_targets (channel cs) (channel (without cs ds))))
      ≡ (includes t cs || includes t ds)
unfolding covering_targets
includes-cover t cs ds = ground (
  arith,
  includes-distinct t (cs ++ without cs ds),
  includes-++ t cs (without cs ds),
  includes-without t cs ds,
)

the_cover : Option ChannelGrant → List String
the_cover none = []
the_cover (some g) = g.channels

-- Where a renewal on channels orphans a part of the prior record, the part holds exactly the channels of the
-- prior record that the new one does not name, and the covering record names exactly those of both.
pub extra_targets-exact :
    (prev g : ChannelGrant) (orphan : Target) (place : String)
    → extra_targets (target_of prev) (target_of g) ≡ some orphan
    → (includes place (channels_of orphan)
        ≡ (includes place prev.channels && not (includes place g.channels)))
      × (includes place (cover_of g orphan).channels
          ≡ (includes place g.channels || includes place prev.channels))
unfolding extra_targets
extra_targets-exact prev g orphan place e =
    let o = some_channels-some (without g.channels prev.channels) orphan e in
    (
      ap (λ x. includes place (channels_of x)) o ∙ includes-without place g.channels prev.channels,
      ap (λ x. includes place (channels_of (covering_targets (target_of g) x))) o
          ∙ includes-cover place g.channels prev.channels,
    )

-- The functions that the Discord adapter passes to the shared ledger meet `Laws`, on records of the channel
-- mode.
pub discord-Laws : Laws discord_adapter
unfolding extra_targets includes
discord-Laws = record {
  none_orphaned = λ prev g e t h. ground (
    arith,
    h,
    includes-without t g.channels prev.channels,
    ap (includes t) (some_channels-none (without g.channels prev.channels) e),
  );
  carried = λ prev g o e t h part. ground (
    arith,
    h,
    part,
    includes-without t g.channels prev.channels,
    ap (λ x. includes t (channels_of x))
        (some_channels-some (without g.channels prev.channels) o e),
  );
  covered = λ prev g c o e e' t h. ground (
    arith,
    h,
    includes-cover t g.channels prev.channels,
    ap (λ x. includes t (channels_of (covering_targets (target_of g) x)))
        (some_channels-some (without g.channels prev.channels) o e),
    ap (λ x. includes t (the_cover x)) e',
  );
}
