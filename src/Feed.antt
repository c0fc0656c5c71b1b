-- ===== src/Feed.antt =====
-- What writing a message leaves in the feed tables (src/features/events/db.rs): the event and audit
-- logs, the search index, the labels, the mentions and the notifications.
pub mod Index
pub mod Notify
pub mod Frame
pub mod Privacy
use sshoosh.Base.{ℕ, Bool, String, Option, List, [], ◌∷◌, ◌++◌}
use sshoosh.Db.{Db, Env, Json, Payload, SourceKind, thread, comment, dm}

unfoldable pub same_kind : SourceKind → SourceKind → Bool
same_kind thread thread = Bool.true
same_kind comment comment = Bool.true
same_kind dm dm = Bool.true
same_kind _ _ = Bool.false

-- One entry of a JSON payload.
abbrev pub entry : String → Json → record { key : String; value : Json }
entry k v = record { key = k; value = v }

unfoldable pub insert_event : Env → Option ℕ → Option ℕ → Option ℕ → String → Payload → Db → Db
insert_event env channel_id thread_id conversation_id kind payload db = record db {
  feed = record db.feed {
    event_log =
        db.event_log
        ++ record {
          created_at = env.now;
          channel_id = channel_id;
          thread_id = thread_id;
          conversation_id = conversation_id;
          kind = kind;
          payload = payload;
        }
          ∷ [];
  };
}

unfoldable pub insert_audit : Env → Option ℕ → String → Option ℕ → Payload → Db → Db
insert_audit env actor action target metadata db = record db {
  feed = record db.feed {
    audit_log =
        db.audit_log
        ++ record {
          actor_account_id = actor;
          action = action;
          target = target;
          metadata = metadata;
          created_at = env.now;
        }
          ∷ [];
  };
}
