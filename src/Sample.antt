-- ===== src/Sample.antt =====
-- A small database for the tests: two members of one channel, an owner who is in it too, and a
-- thread without comments.
pub mod Run
pub mod Abuse
pub mod Accounts
pub mod Admission
pub mod Channels
pub mod Composer
pub mod Dms
pub mod Lease
pub mod Texts
pub mod Threads
use sshoosh.Base.{none, some, [], ◌∷◌, ◌+◌, ℕ}
use sshoosh.Text.{codes}
use sshoosh.Db.{
  Db, Env, People, Chat, Feed, AccountRow, ChannelRow, MemberRow, ThreadRow, Role, owner, member,
  private,
}

abbrev pub sample_account : ℕ → Role → AccountRow
sample_account n role = record {
  id = n;
  username = (97 + n) ∷ [];
  display_name = (65 + n) ∷ [];
  role = role;
  created_at = 1;
  updated_at = 1;
  last_seen_at = none;
  activated_at = some 1;
  disabled_at = none;
  pending_username = none;
}

abbrev pub sample_member : ℕ → MemberRow
sample_member n = record { channel_id = 7; account_id = n; role = member; joined_at = 1 }

abbrev pub sample_channel : ChannelRow
sample_channel = record {
  id = 7;
  slug = codes "general";
  name = codes "general";
  visibility = private;
  topic = none;
  created_by_account_id = 1;
  created_at = 1;
  updated_at = 1;
  archived_at = none;
  archived_by_account_id = none;
}

abbrev pub sample_thread : ThreadRow
sample_thread = record {
  id = 9;
  channel_id = 7;
  creator_account_id = 2;
  title = codes "plan";
  name_key = some (codes "plan");
  body = [];
  comment_count = 0;
  last_comment_index = 0;
  last_activity_at = 1;
  created_at = 1;
  updated_at = 1;
  edited_at = none;
  archived_at = none;
  pinned_at = none;
  deleted_at = none;
}

abbrev pub sample_people : People
sample_people = record {
  accounts = sample_account 1 owner ∷ sample_account 2 member ∷ sample_account 3 member ∷ [];
  reservations = [];
  ssh_keys = [];
  invites = [];
  bootstrap_tokens = [];
}

abbrev pub sample_chat : Chat
sample_chat = record {
  channels = sample_channel ∷ [];
  channel_members = sample_member 1 ∷ sample_member 2 ∷ sample_member 3 ∷ [];
  threads = sample_thread ∷ [];
  comments = [];
  thread_reads = [];
  conversations = [];
  conversation_members = [];
  conversation_messages = [];
}

abbrev pub sample_feed : Feed
sample_feed = record {
  search_index = [];
  message_labels = [];
  mentions = [];
  notifications = [];
  event_log = [];
  audit_log = [];
}

abbrev pub sample_db : Db
sample_db = record { people = sample_people; chat = sample_chat; feed = sample_feed }

-- ASCII is all that the tests lower.
abbrev pub sample_env : ℕ → Env
sample_env fresh = record {
  now = 100 + fresh;
  id = fresh;
  unicode_lower = λ c. c ∷ [];
  sql_lower = λ t. t;
}
