-- ===== src/Db.antt =====
-- The database: one record of tables for the people, one for the chat and one for the feed, with
-- the columns that the statements read or write (migrations/*.sql).
-- An identifier (a UUID as text) is only compared, so it is a number; so is a timestamp, of which
-- only the order matters. A `NULL` is `none`.
use sshoosh.Base.{ℕ, Bool, String, Option, List}
use sshoosh.Base.Int.{ℤ}
use sshoosh.Text.{Text}

-- `Role` (src/features/accounts/model.rs).
pub data Role : Type 0 where
  owner admin member : Role

pub data Visibility : Type 0 where
  public private : Visibility

-- The `source_kind` and `kind` columns.
pub data SourceKind : Type 0 where
  thread comment dm : SourceKind

pub data NotificationKind : Type 0 where
  mention dm reply : NotificationKind

-- People.

pub record AccountRow : Type 0 where
  pub id : ℕ
  pub username : Text
  pub display_name : Text
  pub role : Role
  pub created_at : ℕ
  pub updated_at : ℕ
  pub last_seen_at : Option ℕ
  pub activated_at : Option ℕ
  pub disabled_at : Option ℕ
  pub pending_username : Option Text

pub record ReservationRow : Type 0 where
  pub normalized_username : Text
  pub username : Text
  pub account_id : ℕ
  pub first_used_at : ℕ
  pub last_used_at : Option ℕ
  pub current : Bool

pub record SshKeyRow : Type 0 where
  pub id : ℕ
  pub account_id : ℕ
  pub fingerprint : Text
  pub public_key : Text
  pub label : Option Text
  pub created_at : ℕ
  pub last_used_at : Option ℕ
  pub revoked_at : Option ℕ

pub record InviteRow : Type 0 where
  pub id : ℕ
  pub code_hash : Text
  pub role_on_accept : Role
  pub created_by_account_id : ℕ
  pub accepted_by_account_id : Option ℕ
  pub created_at : ℕ
  pub expires_at : Option ℕ
  pub revoked_at : Option ℕ
  pub accepted_at : Option ℕ

pub record BootstrapTokenRow : Type 0 where
  pub id : ℕ
  pub code_hash : Text
  pub used_by_account_id : Option ℕ
  pub used_at : Option ℕ

pub record People : Type 0 where
  pub accounts : List AccountRow
  pub reservations : List ReservationRow
  pub ssh_keys : List SshKeyRow
  pub invites : List InviteRow
  pub bootstrap_tokens : List BootstrapTokenRow

-- Chat.

pub record ChannelRow : Type 0 where
  pub id : ℕ
  pub slug : Text
  pub name : Text
  pub visibility : Visibility
  pub topic : Option Text
  pub created_by_account_id : ℕ
  pub created_at : ℕ
  pub updated_at : ℕ
  pub archived_at : Option ℕ
  pub archived_by_account_id : Option ℕ

pub record MemberRow : Type 0 where
  pub channel_id : ℕ
  pub account_id : ℕ
  pub role : Role
  pub joined_at : ℕ

pub record ThreadRow : Type 0 where
  pub id : ℕ
  pub channel_id : ℕ
  pub creator_account_id : ℕ
  pub title : Text
  pub name_key : Option Text
  pub body : Text
  pub comment_count : ℕ
  pub last_comment_index : ℕ
  pub last_activity_at : ℕ
  pub created_at : ℕ
  pub updated_at : ℕ
  pub edited_at : Option ℕ
  pub archived_at : Option ℕ
  pub pinned_at : Option ℕ
  pub deleted_at : Option ℕ

pub record CommentRow : Type 0 where
  pub id : ℕ
  pub thread_id : ℕ
  pub channel_id : ℕ
  pub author_account_id : ℕ
  pub obj_index : ℕ
  pub body : Text
  pub created_at : ℕ
  pub updated_at : ℕ
  pub edited_at : Option ℕ
  pub deleted_at : Option ℕ

pub record ThreadReadRow : Type 0 where
  pub thread_id : ℕ
  pub account_id : ℕ
  pub last_read_index : ℤ
  pub unread_count : ℕ
  pub marked_unread_at : Option ℕ
  pub muted_until : Option ℕ
  pub saved_at : Option ℕ

-- The two ids of a `dm_key`, which the column joins with a colon, the smaller one first.
abbrev pub DmKey : Type 0
DmKey = ℕ × ℕ

pub record ConversationRow : Type 0 where
  pub id : ℕ
  pub dm_key : DmKey
  pub creator_account_id : ℕ
  pub last_message_index : ℕ
  pub last_activity_at : ℕ
  pub created_at : ℕ
  pub archived_at : Option ℕ

pub record ConversationMemberRow : Type 0 where
  pub conversation_id : ℕ
  pub account_id : ℕ
  pub joined_at : ℕ
  pub last_read_index : ℤ
  pub unread_count : ℕ
  pub muted_until : Option ℕ
  pub saved_at : Option ℕ

pub record MessageRow : Type 0 where
  pub id : ℕ
  pub conversation_id : ℕ
  pub author_account_id : ℕ
  pub obj_index : ℕ
  pub body : Text
  pub created_at : ℕ
  pub updated_at : ℕ
  pub edited_at : Option ℕ
  pub deleted_at : Option ℕ

pub record Chat : Type 0 where
  pub channels : List ChannelRow
  pub channel_members : List MemberRow
  pub threads : List ThreadRow
  pub comments : List CommentRow
  pub thread_reads : List ThreadReadRow
  pub conversations : List ConversationRow
  pub conversation_members : List ConversationMemberRow
  pub conversation_messages : List MessageRow

-- Feed. A source is what a row of the feed points at.

pub record Source : Type 0 where
  pub kind : SourceKind
  pub object_id : ℕ
  pub channel_id : Option ℕ
  pub thread_id : Option ℕ
  pub conversation_id : Option ℕ

-- A row of `search_documents` with the row of `search_index` that has its rowid.
pub record SearchRow : Type 0 where
  pub source : Source
  pub title : Text
  pub body : Text
  pub context : Text

pub record LabelRow : Type 0 where
  pub tag : Text
  pub source : Source
  pub obj_index : Option ℕ
  pub created_at : ℕ

pub record MentionRow : Type 0 where
  pub target_account_id : ℕ
  pub actor_account_id : ℕ
  pub source : Source
  pub obj_index : Option ℕ
  pub created_at : ℕ
  pub read_at : Option ℕ

pub record NotificationRow : Type 0 where
  pub account_id : ℕ
  pub actor_account_id : Option ℕ
  pub kind : NotificationKind
  pub source : Source
  pub title : Text
  pub body : Text
  pub created_at : ℕ
  pub read_at : Option ℕ

-- The values that the JSON payloads of events and audit entries are built from.
pub data Json : Type 0 where
  num : ℕ → Json
  text : Text → Json
  flag : Bool → Json
  null : Json

abbrev pub Payload : Type 0
Payload = List (record { key : String; value : Json })

pub record EventRow : Type 0 where
  pub created_at : ℕ
  pub channel_id : Option ℕ
  pub thread_id : Option ℕ
  pub conversation_id : Option ℕ
  pub kind : String
  pub payload : Payload

pub record AuditRow : Type 0 where
  pub actor_account_id : Option ℕ
  pub action : String
  pub target : Option ℕ
  pub metadata : Payload
  pub created_at : ℕ

pub record Feed : Type 0 where
  pub search_index : List SearchRow
  pub message_labels : List LabelRow
  pub mentions : List MentionRow
  pub notifications : List NotificationRow
  pub event_log : List EventRow
  pub audit_log : List AuditRow

pub record Db : Type 0 where
  pub people : People
  pub open people use *
  pub chat : Chat
  pub open chat use *
  pub feed : Feed
  pub open feed use *

-- What a handler takes from outside the database: the clock, a fresh identifier, the Unicode
-- table behind `str::to_lowercase`, and SQLite's `lower`.
pub record Env : Type 0 where
  pub now : ℕ
  pub id : ℕ
  pub unicode_lower : ℕ → Text
  pub sql_lower : Text → Text
