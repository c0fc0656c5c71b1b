-- ===== src/Feed/Index.antt =====
-- The search index and the labels of a source. `search_documents` and `search_index` share their
-- rowids, so a row here stands for the pair.
use sshoosh.Base.{ℕ, Bool, ◌&&◌, Option, none, some, ◌∷◌, ◌++◌, map, ◌==◌, if◌then◌else◌}
use sshoosh.Base.Tables.{upsert, delete_where}
use sshoosh.Text.{Text, trim, is_empty}
use sshoosh.Text.Sanitize.{sanitize_stored_text, sanitize_single_line_text}
use sshoosh.Text.Label.{parse_labels}
use sshoosh.Db.{Db, Source, SourceKind, SearchRow}
use sshoosh.Feed.{same_kind}

-- `kind = ? AND object_id = ?`
unfoldable pub is_source : SourceKind → ℕ → Source → Bool
unfolding same_kind
is_source kind object_id s = same_kind s.kind kind && s.object_id == object_id

unfoldable pub upsert_search_index_tx : Source → Text → Text → Text → Db → Db
unfolding is_source
upsert_search_index_tx source title body context db =
    let row : SearchRow = record {
      source = source;
      title = sanitize_single_line_text title;
      body = sanitize_stored_text body;
      context = sanitize_single_line_text context;
    } in
    record db {
      feed = record db.feed {
        search_index =
            upsert (λ r. is_source source.kind source.object_id r.source) row (λ _. row)
              db.search_index;
      };
    }

unfoldable pub delete_search_index_tx : SourceKind → ℕ → Db → Db
unfolding is_source
delete_search_index_tx kind object_id db = record db {
  feed = record db.feed {
    search_index = delete_where (λ r. is_source kind object_id r.source) db.search_index;
  };
}

unfoldable pub delete_labels_tx : SourceKind → ℕ → Db → Db
unfolding is_source
delete_labels_tx kind object_id db = record db {
  feed = record db.feed {
    message_labels = delete_where (λ r. is_source kind object_id r.source) db.message_labels;
  };
}

is_in_thread : ℕ → Option ℕ → Bool
is_in_thread thread_id none = Bool.false
is_in_thread thread_id (some t) = t == thread_id

unfoldable pub delete_thread_labels_tx : ℕ → Db → Db
unfolding is_in_thread
delete_thread_labels_tx thread_id db = record db {
  feed = record db.feed {
    message_labels =
        delete_where (λ r. is_in_thread thread_id r.source.thread_id) db.message_labels;
  };
}

unfoldable pub replace_labels_tx : Source → Option ℕ → Text → ℕ → Db → Db
unfolding delete_labels_tx
replace_labels_tx source obj_index text created_at db =
    let cleared = delete_labels_tx source.kind source.object_id db in
    record cleared {
      feed = record cleared.feed {
        message_labels =
            cleared.message_labels
            ++ map
                (λ tag. record {
                  tag = tag;
                  source = source;
                  obj_index = obj_index;
                  created_at = created_at;
                })
                (parse_labels text);
      };
    }

unfoldable pub thread_label_text : Text → Text → Text
unfolding trim
thread_label_text title body = if is_empty (trim body) then title else title ++ 10 ∷ body
