-- ===== src/Channels/Handlers.antt =====
-- The handlers of channels and their members, each a transaction.
use sshoosh.Base.{
  ℕ, Bool, true, false, ◌&&◌, ◌||◌, not, Option, none, some, [], ◌∷◌, ◌++◌, ◌==◌, is_none,
  if◌then◌else◌, Result, ok, err, constraint, not_activated, channel_not_found,
  members_of_private_only, creator_stays, general_stays, private_needs_invite, ensure, some_or,
  ◌>>=◌, ◌>>◌,
}
use sshoosh.Base.Tables.{find, exists, update_where, delete_where}
use sshoosh.Text.{Text, codes, is_empty, text_eq, trim}
use sshoosh.Text.Name.{normalize_slug}
use sshoosh.Text.Sanitize.{sanitize_single_line_text}
use sshoosh.Db.{
  Db, Env, Chat, ChannelRow, MemberRow, Role, owner, member, Visibility, public, private, Json, num,
  text, flag, null,
}
use sshoosh.Feed.{entry, insert_event, insert_audit}
use sshoosh.Guards.{
  load_account_tx, load_account_by_username_tx, load_channel_by_slug_tx,
  load_channel_by_slug_any_tx, slug_argument, ensure_can_manage_channel,
}
use sshoosh.Threads.Handlers.{ensure_channel_name_available}

unfoldable pub is_channel : ℕ → ChannelRow → Bool
is_channel channel_id c = c.id == channel_id

unfoldable pub has_slug : Text → ChannelRow → Bool
has_slug slug c = text_eq c.slug slug

abbrev pub general : Text
general = codes "general"

abbrev pub is_public : Visibility → Bool
is_public public = true
is_public private = false

-- `UPDATE channels SET … WHERE id = ?`
unfoldable pub update_channel : ℕ → (ChannelRow → ChannelRow) → Chat → Chat
unfolding is_channel
update_channel channel_id f chat = record chat {
  channels = update_where (is_channel channel_id) f chat.channels;
}

-- The primary key of `channel_members`.
unfoldable pub is_seat : ℕ → ℕ → MemberRow → Bool
is_seat channel_id account_id m = m.channel_id == channel_id && m.account_id == account_id

unfoldable pub add_member : Env → ℕ → ℕ → Role → Chat → Chat
add_member env channel_id account_id role chat = record chat {
  channel_members =
      chat.channel_members
      ++ record {
        channel_id = channel_id;
        account_id = account_id;
        role = role;
        joined_at = env.now;
      }
        ∷ [];
}

-- `INSERT INTO channel_members … ON CONFLICT DO NOTHING`
unfoldable pub keep_member : Env → ℕ → ℕ → Chat → Chat
unfolding is_seat add_member
keep_member env channel_id account_id chat =
    if exists (is_seat channel_id account_id) chat.channel_members
    then chat
    else add_member env channel_id account_id member chat

unfoldable pub remove_member : ℕ → ℕ → Chat → Chat
unfolding is_seat
remove_member channel_id account_id chat = record chat {
  channel_members = delete_where (is_seat channel_id account_id) chat.channel_members;
}

abbrev pub new_channel : Env → ℕ → Text → Bool → ChannelRow
new_channel env actor_id slug is_private = record {
  id = env.id;
  slug = slug;
  name = slug;
  visibility = if is_private then private else public;
  topic = none;
  created_by_account_id = actor_id;
  created_at = env.now;
  updated_at = env.now;
  archived_at = none;
  archived_by_account_id = none;
}

-- The two inserts of `create_channel`; an archived channel keeps its slug, which is `UNIQUE`.
unfoldable pub insert_channel : Env → ℕ → Text → Bool → Chat → Result Chat
unfolding is_channel has_slug is_seat add_member
insert_channel env actor_id slug is_private chat =
    if exists (is_channel env.id) chat.channels
      || exists (has_slug slug) chat.channels
      || exists (is_seat env.id actor_id) chat.channel_members
    then err constraint
    else ok (
        add_member env env.id actor_id owner (record chat {
          channels = chat.channels ++ new_channel env actor_id slug is_private ∷ [];
        }))

unfoldable pub create_channel : Env → ℕ → Text → Bool → Db → Result Db
unfolding load_account_tx ensure_channel_name_available insert_channel
create_channel env actor_id name is_private db = do
  actor ← load_account_tx actor_id db
  ensure actor.activated not_activated
  slug ← normalize_slug env.unicode_lower name
  ensure_channel_name_available slug db
  chat ← insert_channel env actor_id slug is_private db.chat
  ok (
      insert_event env (some env.id) none none "channel.created"
        (entry "channel_id" (num env.id)
          ∷ entry "slug" (text slug)
          ∷ entry "private" (flag is_private)
          ∷ [])
        (record db { chat = chat }))

unfoldable pub join_channel : Env → ℕ → Text → Db → Result Db
unfolding load_account_tx slug_argument keep_member
join_channel env actor_id slug db = do
  actor ← load_account_tx actor_id db
  ensure actor.activated not_activated
  channel ←
      some_or
        (find (λ c. text_eq c.slug (slug_argument env slug) && is_none c.archived_at) db.channels)
        channel_not_found
  ensure (is_public channel.visibility) private_needs_invite
  ok (
      insert_event env (some channel.id) none none "channel.member_added"
        (entry "channel_id" (num channel.id) ∷ entry "account_id" (num actor_id) ∷ [])
        (record db { chat = keep_member env channel.id actor_id db.chat }))

unfoldable pub leave_channel : Env → ℕ → Text → Db → Result Db
unfolding load_account_tx load_channel_by_slug_tx remove_member
leave_channel env actor_id slug db = do
  actor ← load_account_tx actor_id db
  ensure actor.activated not_activated
  channel ← load_channel_by_slug_tx env slug db
  ensure (not (text_eq channel.slug general)) general_stays
  ensure (not (channel.created_by_account_id == actor_id)) creator_stays
  let audited =
      insert_audit env (some actor_id) "channel.left" (some channel.id)
        (entry "channel" (text channel.slug) ∷ [])
        (record db { chat = remove_member channel.id actor_id db.chat })
  ok (
      insert_event env (some channel.id) none none "channel.left"
        (entry "channel_id" (num channel.id) ∷ entry "account_id" (num actor_id) ∷ []) audited)

-- The write of `update_channel_member`.
unfoldable pub write_member : Env → ChannelRow → ℕ → Bool → Chat → Result Chat
unfolding keep_member remove_member
write_member env channel target_id true chat = ok (keep_member env channel.id target_id chat)
write_member env channel target_id false chat =
    if target_id == channel.created_by_account_id
    then err creator_stays
    else ok (remove_member channel.id target_id chat)

unfoldable pub update_channel_member : Env → ℕ → Text → Text → Bool → Db → Result Db
unfolding load_channel_by_slug_tx ensure_can_manage_channel load_account_by_username_tx write_member
update_channel_member env actor_id slug username add db = do
  channel ← load_channel_by_slug_tx env slug db
  actor ← ensure_can_manage_channel actor_id channel db
  ensure (not (is_public channel.visibility)) members_of_private_only
  target ← load_account_by_username_tx env username db
  chat ← write_member env channel target.id add db.chat
  let action = if add then "channel.member_added" else "channel.member_removed"
  let audited =
      insert_audit env (some actor_id) action (some channel.id)
        (entry "channel" (text channel.slug) ∷ entry "username" (text target.username) ∷ [])
        (record db { chat = chat })
  ok (
      insert_event env (some channel.id) none none action
        (entry "channel_id" (num channel.id) ∷ entry "account_id" (num target.id) ∷ []) audited)

-- `UPDATE channels SET slug = ?, …`, which a row with the slug stops.
unfoldable pub write_slug : Env → ℕ → Text → Chat → Result Chat
unfolding is_channel has_slug update_channel
write_slug env channel_id slug chat =
    if exists (λ c. not (is_channel channel_id c) && has_slug slug c) chat.channels
    then err constraint
    else ok (
        update_channel channel_id (λ c. record c { slug = slug; name = slug; updated_at = env.now })
          chat)

unfoldable pub rename_channel : Env → ℕ → Text → Text → Db → Result Db
unfolding load_channel_by_slug_tx ensure_can_manage_channel ensure_channel_name_available write_slug
rename_channel env actor_id slug next_name db = do
  next_slug ← normalize_slug env.unicode_lower next_name
  channel ← load_channel_by_slug_tx env slug db
  actor ← ensure_can_manage_channel actor_id channel db
  ensure (not (text_eq channel.slug general)) general_stays
  (if text_eq channel.slug next_slug then ok tt else ensure_channel_name_available next_slug db)
  chat ← write_slug env channel.id next_slug db.chat
  let audited =
      insert_audit env (some actor_id) "channel.renamed" (some channel.id)
        (entry "from" (text channel.slug) ∷ entry "to" (text next_slug) ∷ [])
        (record db { chat = chat })
  ok (
      insert_event env (some channel.id) none none "channel.renamed"
        (entry "channel_id" (num channel.id) ∷ entry "slug" (text next_slug) ∷ []) audited)

or_null : Option Text → Json
or_null none = null
or_null (some topic) = text topic

-- `(!topic.is_empty()).then_some(topic)`
unfoldable pub topic_of : Text → Option Text
topic_of input =
    let topic = trim (sanitize_single_line_text input) in
    if is_empty topic then none else some topic

unfoldable pub set_channel_topic : Env → ℕ → Text → Text → Db → Result Db
unfolding load_channel_by_slug_tx ensure_can_manage_channel update_channel topic_of or_null
set_channel_topic env actor_id slug input db = do
  channel ← load_channel_by_slug_tx env slug db
  actor ← ensure_can_manage_channel actor_id channel db
  let written : Db = record db {
    chat =
        update_channel channel.id (λ c. record c { topic = topic_of input; updated_at = env.now })
          db.chat;
  }
  let audited =
      insert_audit env (some actor_id) "channel.topic_changed" (some channel.id)
        (entry "channel" (text channel.slug) ∷ entry "topic" (or_null (topic_of input)) ∷ [])
        written
  ok (
      insert_event env (some channel.id) none none "channel.topic_changed"
        (entry "channel_id" (num channel.id) ∷ []) audited)

unfoldable pub load_channel_for_archive : Env → Text → Bool → Db → Result ChannelRow
unfolding load_channel_by_slug_tx load_channel_by_slug_any_tx
load_channel_for_archive env slug archived db =
    if archived
    then load_channel_by_slug_tx env slug db
    else load_channel_by_slug_any_tx env slug db

unfoldable pub set_channel_archived : Env → ℕ → Text → Bool → Db → Result Db
unfolding load_channel_for_archive ensure_can_manage_channel update_channel
set_channel_archived env actor_id slug archived db = do
  channel ← load_channel_for_archive env slug archived db
  actor ← ensure_can_manage_channel actor_id channel db
  ensure (not (text_eq channel.slug general)) general_stays
  let written : Db = record db {
    chat =
        update_channel channel.id
          (λ c. record c {
            archived_at = if archived then some env.now else none;
            archived_by_account_id = if archived then some actor_id else none;
            updated_at = env.now;
          })
          db.chat;
  }
  let action = if archived then "channel.archived" else "channel.unarchived"
  let audited =
      insert_audit env (some actor_id) action (some channel.id)
        (entry "channel" (text channel.slug) ∷ []) written
  ok (
      insert_event env (some channel.id) none none action (entry "channel_id" (num channel.id) ∷ [])
        audited)
