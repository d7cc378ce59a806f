-- ===== src/Messages.antt =====
-- apps/messaging/src/messages/messages.service.ts. A read is one SELECT; a change is a SELECT and
-- then a statement on the row's id. Rows with equal times keep their order.
pub mod Pages
mod Examples
use contract_driven_messagin.Common.{
  ℕ, suc, min, String, Bool, true, false, not, List, [], ◌∷◌, ◌++◌, Option, none, some, str_eq,
  keep, take, leb, ltb, ◌==◌, if◌then◌else◌, default_to,
}
use contract_driven_messagin.Outbox.Update.{update_where}
use contract_driven_messagin.Database.{Message}

pub record CreateMessageDto : Type 0 where
  pub title : String
  pub content : String
  pub sender : String
  pub recipient : Option String

-- An absent field is `none`.
pub record UpdateMessageDto : Type 0 where
  pub title : Option String
  pub content : Option String
  pub sender : Option String
  pub recipient : Option String

pub record FindAllOptions : Type 0 where
  pub limit : Option ℕ
  pub cursor : Option String

-- `order: { createdAt: 'DESC' }`.
unfoldable pub insert_newest : Message → List Message → List Message
insert_newest m [] = m ∷ []
insert_newest m (x ∷ xs) =
    if leb x.created_at m.created_at then m ∷ x ∷ xs else x ∷ insert_newest m xs

unfoldable pub newest_first : List Message → List Message
unfolding insert_newest
newest_first [] = []
newest_first (x ∷ xs) = insert_newest x (newest_first xs)

abbrev pub page_limit : FindAllOptions → ℕ
page_limit opts = min (default_to 50 opts.limit) 200

-- The `where` of the query; an empty cursor filters nothing. `date` is `new Date(…)`.
abbrev pub is_before_cursor : (String → ℕ) → Option String → Message → Bool
is_before_cursor date none m = true
is_before_cursor date (some c) m = if str_eq c "" then true else ltb m.created_at (date c)

unfoldable pub find_all : (String → ℕ) → FindAllOptions → List Message → List Message
unfolding newest_first
find_all date opts ms =
    take (page_limit opts) (newest_first (keep (is_before_cursor date opts.cursor) ms))

-- `NotFoundException` is `none`.
unfoldable pub find_one : ℕ → List Message → Option Message
find_one id [] = none
find_one id (m ∷ ms) = if m.id == id then some m else find_one id ms

-- `create`, with the id of the sequence and the time of the database.
unfoldable pub create_message : ℕ → ℕ → CreateMessageDto → List Message → Message × List Message
create_message id now dto ms =
    let m : Message = record {
      id = id;
      title = dto.title;
      content = dto.content;
      sender = dto.sender;
      recipient = dto.recipient;
      created_at = now;
    } in
    (m, ms ++ (m ∷ []))

abbrev pub or_own : Option String → Option String → Option String
or_own none own = own
or_own (some s) own = some s

-- `Object.assign(message, dto)`.
abbrev pub assign : UpdateMessageDto → Message → Message
assign dto m = record m {
  title = default_to m.title dto.title;
  content = default_to m.content dto.content;
  sender = default_to m.sender dto.sender;
  recipient = or_own dto.recipient m.recipient;
}

unfoldable pub update_message : ℕ → UpdateMessageDto → List Message → Option Message × List Message
unfolding find_one update_where
update_message id dto ms = elim (find_one id ms) [
  | none ↦ (none, ms)
  | some m ↦ (some (assign dto m), update_where (λ x. x.id == id) (λ _. assign dto m) ms)
]

-- Whether the message was found, and the table after it.
unfoldable pub remove_message : ℕ → List Message → Bool × List Message
unfolding find_one
remove_message id ms = elim (find_one id ms) [
  | none ↦ (false, ms)
  | some m ↦ (true, keep (λ x. not (x.id == id)) ms)
]
