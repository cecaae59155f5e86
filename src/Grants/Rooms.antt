-- ===== src/Grants/Rooms.antt =====
-- The ledgers of adapters/matrix/bot.js and adapters/telegram/bot.js, whose records give one room or chat.
use dash_mno_verify.Prelude.{
  ℕ, Bool, true, false, not, String, string_eq, ◌==◌, eq_of_==, Option, none, some, if◌then◌else◌,
  ◌≡◌, sym, ap, arith,
}
use dash_mno_verify.Grants.Ledger.{Adapter}
use dash_mno_verify.Grants.Tracked.{Laws}

pub record RoomGrant : Type 0 where
  pub deadline : ℕ
  pub room_id : String

unfoldable pub moved_room : RoomGrant → RoomGrant → Option RoomGrant
moved_room prev next = if prev.room_id == next.room_id then none else some prev

-- No covering record, and no pass that repairs.
abbrev pub rooms_adapter : Adapter RoomGrant RoomGrant
rooms_adapter = record {
  expires_at = λ g. g.deadline;
  validate = λ g. not (g.room_id == "");
  orphaned = moved_room;
  covering = λ g orphan. none;
  repairs = false;
  names = λ g room. g.room_id == room;
  names_part = λ g room. g.room_id == room;
}

abbrev room_of : Option RoomGrant → String
room_of none = ""
room_of (some g) = g.room_id

-- A part is orphaned only where the room changes, and it is then the prior record.
moved_room-none :
    (prev next : RoomGrant) → moved_room prev next ≡ none → prev.room_id ≡ next.room_id
unfolding moved_room
moved_room-none prev next e = eq_of_== prev.room_id next.room_id (ground (arith, e))

moved_room-some :
    (prev next o : RoomGrant) → moved_room prev next ≡ some o → o.room_id ≡ prev.room_id
unfolding moved_room
moved_room-some prev next o e = go (prev.room_id == next.room_id) e
  where
    go : (b : Bool) → (if b then none else some prev) ≡ some o → o.room_id ≡ prev.room_id
    go true h = ground (arith, h)
    go false h = sym (ap room_of h)

-- The functions that the Matrix and Telegram bots pass to the shared ledger meet `Laws`.
pub rooms-Laws : Laws rooms_adapter
rooms-Laws = record {
  none_orphaned = λ prev g e t h. ground (arith, h, ap (λ r. r == t) (moved_room-none prev g e));
  carried =
      λ prev g o e t h part. ground (arith, h, part, ap (λ r. r == t) (moved_room-some prev g o e));
  covered = λ prev g c o e e' t h. ground (arith, e');
}
