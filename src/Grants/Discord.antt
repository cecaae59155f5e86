-- ===== src/Grants/Discord.antt =====
-- adapters/discord/grant_ledger.js: the records of the Discord adapter, and what it compares them by.
use dash_mno_verify.Prelude.{
  ℕ, List, [], ◌∷◌, ◌++◌, Bool, true, false, not, ◌&&◌, ◌||◌, String, string_eq, ◌==◌, Option, none,
  some, if◌then◌else◌, is_some,
}
use dash_mno_verify.Grants.Ledger.{Adapter}

-- `mode`, with what the mode needs.
pub data Target : Type 0 where
  channel : List String → Target
  role : String → Target

pub record Grant : Type 0 where
  pub expires_at : Option ℕ
  pub target : Target
  pub guild_id : Option String

unfoldable pub includes : String → List String → Bool
includes x [] = false
includes x (y ∷ ys) = (y == x) || includes x ys

-- `a.filter((c) => !b.includes(c))`
unfoldable pub without : List String → List String → List String
without b [] = []
without b (x ∷ xs) = let rest = without b xs in if includes x b then rest else x ∷ rest

-- `[...new Set(a)]`, of what the set does not hold yet.
unfoldable pub distinct_after : List String → List String → List String
distinct_after held [] = []
distinct_after held (x ∷ xs) =
    let rest = distinct_after held xs in
    let added = distinct_after (x ∷ held) xs in if includes x held then rest else x ∷ added

abbrev pub distinct : List String → List String
distinct = distinct_after []

abbrev pub channels_of : Target → List String
channels_of (channel cs) = cs
channels_of (role r) = []

abbrev pub some_channels : List String → Option Target
some_channels [] = none
some_channels (c ∷ cs) = some (channel (c ∷ cs))

-- `extraTargets(a, b)`. A role's id is the empty string where it is missing.
unfoldable pub extra_targets : Target → Target → Option Target
extra_targets (channel cs) b = some_channels (without (channels_of b) cs)
extra_targets (role r) (channel cs) = if r == "" then none else some (role r)
extra_targets (role r) (role s) = if (r == "") || (r == s) then none else some (role r)

-- `coveringTargets(record, orphan)`, which is never null.
unfoldable pub covering_targets : Target → Target → Target
covering_targets (channel cs) (channel ds) = channel (distinct (cs ++ ds))
covering_targets (channel cs) (role s) = channel cs
covering_targets (role r) orphan = role r

unfoldable pub all_named : List String → Bool
all_named [] = true
all_named (c ∷ cs) = not (c == "") && all_named cs

abbrev pub is_valid_target : Target → Bool
is_valid_target (channel []) = false
is_valid_target (channel (c ∷ cs)) = all_named (c ∷ cs)
is_valid_target (role r) = not (r == "")

-- `isValidRecord(r)`. The deadline is missing where it is not a finite number.
unfoldable pub is_valid_record : Grant → Bool
is_valid_record g = is_some g.expires_at && is_valid_target g.target

-- A record of the channel mode, the only one that the bot grants or starts with.
pub record ChannelGrant : Type 0 where
  pub deadline : ℕ
  pub channels : List String

abbrev pub target_of : ChannelGrant → Target
target_of g = channel g.channels

abbrev pub cover_of : ChannelGrant → Target → ChannelGrant
cover_of g orphan = record g { channels = channels_of (covering_targets (target_of g) orphan) }

-- What `GrantLedger` passes to the shared ledger, and what `apply` and `revoke` of a record act on.
abbrev pub discord_adapter : Adapter ChannelGrant Target
discord_adapter = record {
  expires_at = λ g. g.deadline;
  validate = λ g. is_valid_target (target_of g);
  orphaned = λ prev g. extra_targets (target_of prev) (target_of g);
  covering = λ g orphan. some (cover_of g orphan);
  repairs = true;
  names = λ g place. includes place g.channels;
  names_part = λ orphan place. includes place (channels_of orphan);
}
