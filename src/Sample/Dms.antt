-- ===== src/Sample/Dms.antt =====
-- A run of direct messages: the member 2 opens a conversation with the member 3, and both write.
use mathlib.Core.List.{Mem}
use sshoosh.Base.{◌⊎◌, ℕ, ◌≡◌, refl, true, not, some, ◌==◌, arith, Result, ok, err, is_ok}
use sshoosh.Base.Tables.{find, count, All}
use sshoosh.Text.{Text, codes, trim, is_empty}
use sshoosh.Text.Sanitize.{sanitize_stored_text}
use sshoosh.Db.{Db, AccountRow, MessageRow, member}
use sshoosh.Dms.Writes.{is_conversation, delete_message_row, new_conversation, dm_key}
use sshoosh.Dms.Handlers.{
  open_dm, send_dm, update_dm_body, soft_delete_dm, mark_conversation_read, dm_target,
}
use sshoosh.Dms.Exact.{IsExact}
use sshoosh.Dms.Exact.Opened.{IsOpen}
use sshoosh.Dms.Safety.Sending.{IsForParticipant, send_dm-IsExact, send_dm-notified, send_dm-is_ok}
use sshoosh.Dms.Safety.Editing.{
  is_at, IsReworded, IsOnlyMessage, IsOwnMessage, soft_delete_dm_lem, update_dm_body_lem,
}
use sshoosh.Dms.Safety.Opening.{open_dm_lem, open_dm_again}
use sshoosh.Dms.Safety.Marking.{IsRead, mark_conversation_read_lem}
use sshoosh.Sample.Run.{run}
use sshoosh.Sample.{sample_db, sample_env, sample_chat, sample_account}

abbrev after_ok : Result Db → Db
after_ok (ok db) = db
after_ok (err e) = sample_db

abbrev opened_ok : Result (ℕ × Db) → Db
opened_ok (ok (k, db)) = db
opened_ok (err e) = sample_db

sample-IsExact : IsExact sample_chat
unfolding count is_conversation
sample-IsExact = record {
  message_ids = λ k. ground arith;
  conversation_ids = λ k. ground arith;
  within = λ k. tt;
  seats = tt;
  paired = tt;
}

opened : Db
opened = opened_ok (open_dm (sample_env 40) 2 (codes "@d") sample_db)

opened_is : open_dm (sample_env 40) 2 (codes "@d") sample_db ≡ ok (40, opened)
unfolding opened run
opened_is = refl

opened_example :
    IsExact opened.chat
    × ((row : AccountRow) × (dm_target (sample_env 40) (codes "@d") sample_db ≡ some row)
        × (not (row.id == 2) ≡ true)
        × IsOpen 40 2 row.id opened.chat)
opened_example =
    open_dm_lem (sample_env 40) 2 (codes "@d") sample_db opened 40 sample-IsExact opened_is

-- The member 3 opens it from the other side.
again : Db
again = opened_ok (open_dm (sample_env 41) 3 (codes "c") opened)

again_is : open_dm (sample_env 41) 3 (codes "c") opened ≡ ok (40, again)
unfolding again opened run
again_is = refl

named : dm_target (sample_env 40) (codes "@d") sample_db ≡ some (sample_account 3 member)
unfolding run
named = refl

named_back : dm_target (sample_env 41) (codes "c") opened ≡ some (sample_account 2 member)
unfolding opened run
named_back = refl

abbrev conversation : ℕ
conversation = 40

again_example : (conversation ≡ conversation) × (again.chat ≡ opened.chat)
again_example =
    open_dm_again (sample_env 40) (sample_env 41) 2 (codes "@d") (codes "c") sample_db opened again
      40 40 (sample_account 3 member) (sample_account 2 member) sample-IsExact opened_is named
      again_is named_back refl

-- The member 2 writes.
abbrev greeting : Text
greeting = codes "hi @d"

greeted : Db
greeted = after_ok (send_dm (sample_env 42) 2 40 greeting opened)

greeted_is : send_dm (sample_env 42) 2 40 greeting opened ≡ ok greeted
unfolding greeted opened run
greeted_is = refl

greeted_example : IsExact greeted.chat
greeted_example =
    send_dm-IsExact (sample_env 42) 2 40 greeting opened greeted greeted_is opened_example.0

greeted-notified :
    All (λ n. Mem n opened.notifications ⊎ IsForParticipant 2 40 greeted n) greeted.notifications
greeted-notified = send_dm-notified (sample_env 42) 2 40 greeting opened greeted greeted_is

found_conversation :
    find (is_conversation 40) opened.conversations
    ≡ some (new_conversation (sample_env 40) 2 (dm_key 2 3))
unfolding opened run
found_conversation = refl

greeting_succeeds : is_ok (send_dm (sample_env 42) 2 40 greeting opened) ≡ true
unfolding opened run
greeting_succeeds =
    send_dm-is_ok (sample_env 42) 2 40 greeting opened
      (new_conversation (sample_env 40) 2 (dm_key 2 3)) opened_example.0 refl refl
      found_conversation refl

-- It is edited, read by the member 3, and deleted.
abbrev correction : Text
correction = codes "hello"

edited : Db
edited = after_ok (update_dm_body (sample_env 43) 2 40 1 correction greeted)

edited_is : update_dm_body (sample_env 43) 2 40 1 correction greeted ≡ ok edited
unfolding edited greeted opened run
edited_is = refl

edited_example :
    (not (is_empty (trim (sanitize_stored_text correction))) ≡ true)
    × ((row : MessageRow) × IsOwnMessage 2 40 1 row greeted
        × ((row2 : MessageRow) × (find (is_at 40 1) edited.conversation_messages ≡ some row2)
            × IsReworded (sample_env 43) (trim (sanitize_stored_text correction)) row row2)
        × IsOnlyMessage row.id greeted.chat edited.chat)
    × IsExact edited.chat
edited_example =
    update_dm_body_lem (sample_env 43) 2 40 1 greeted edited greeted_example correction edited_is

deleted : Db
deleted = after_ok (soft_delete_dm (sample_env 44) 2 40 1 greeted)

deleted_is : soft_delete_dm (sample_env 44) 2 40 1 greeted ≡ ok deleted
unfolding deleted greeted opened run
deleted_is = refl

deleted_example :
    (row : MessageRow) × IsOwnMessage 2 40 1 row greeted
    × (deleted.chat ≡ delete_message_row (sample_env 44) 40 row greeted.chat)
    × IsExact deleted.chat
deleted_example =
    soft_delete_dm_lem (sample_env 44) 2 40 1 greeted deleted greeted_example deleted_is

read : Db
read = after_ok (mark_conversation_read (sample_env 45) 3 40 greeted)

read_is : mark_conversation_read (sample_env 45) 3 40 greeted ≡ ok read
unfolding read greeted opened run
read_is = refl

conversation-IsRead : IsExact read.chat × IsRead 40 3 read.chat
conversation-IsRead =
    mark_conversation_read_lem 3 40 greeted greeted_example (sample_env 45) read read_is
