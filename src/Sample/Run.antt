-- ===== src/Sample/Run.antt =====
-- What a run of a handler computes with.
use sshoosh.Base.{Result}
use sshoosh.Base.Tables.{find, count, update_where, select_where, upsert, delete_where}
use sshoosh.Text.{text_eq, trim, trim_start_matches, decimal}
use sshoosh.Text.Sanitize.{sanitize_stored_text, sanitize_single_line_text}
use sshoosh.Text.Label.{parse_labels}
use sshoosh.Text.Mention.{parse_mentions}
use sshoosh.Text.Name.{normalize_name_key, normalize_username, normalize_slug}
use sshoosh.Feed.{insert_event, insert_audit}
use sshoosh.Feed.Index.{
  upsert_search_index_tx, delete_search_index_tx, delete_labels_tx, delete_thread_labels_tx,
  replace_labels_tx, thread_label_text,
}
use sshoosh.Feed.Notify.{
  is_active, is_member, is_active_account, account_can_view_source_tx, create_notification_tx,
  insert_mention, mention_target, mention_loop, create_mention_notifications_tx,
  thread_participants, notify_loop, notification_body, create_thread_reply_notifications_tx,
  source_is_visible, mem_ℕ, is_participant, in_channel, in_conversation, dm_recipients,
  create_dm_notifications_tx,
}
use sshoosh.Guards.{
  is_free_for, load_account_tx, ensure_can_view_channel, load_channel_by_id_tx, load_thread_meta_tx,
  load_comment_meta_tx, account_from_row, can_admin, is_owner, is_admin, require_admin_tx,
  load_dm_message_meta_tx, slug_argument, load_channel_by_slug_tx, load_channel_by_slug_any_tx,
  ensure_can_manage_channel, is_hash, load_account_by_username_tx, ensure_can_manage_account,
  ensure_can_modify_thread, ensure_not_last_active_owner, is_active_owner,
  ensure_username_reservable_tx, is_at_sign, username_reservation_owner_tx,
}
use sshoosh.Threads.Writes.{
  is_thread, is_read_of, is_live, is_unread, comment_conflicts, count_comment, read_up_to,
  bump_unread_of, bump_unread, other_members, with_comment, write_comment, delete_comment_row,
  read_all, unread_last, upsert_thread_read_state,
}
use sshoosh.Threads.Projector.{thread_created, comment_created}
use sshoosh.Threads.Handlers.{
  add_comment, create_thread, soft_delete_comment, load_own_comment, can_moderate, mark_thread_read,
  mark_thread_unread, mark_feed_read, set_thread_muted, set_thread_saved, write_thread,
  ensure_thread_name_available, ensure_channel_name_available, active_channel_exists, is_named,
  active_thread_name_exists, update_comment_body, set_comment_body,
}
use sshoosh.Threads.Editing.{
  update_thread, ensure_title_free, thread_edited, edit_thread, rename_thread, is_pinned,
  is_deletion, flag_action, set_flag, update_thread_flag,
}
use sshoosh.Channels.Handlers.{
  is_channel, has_slug, update_channel, is_seat, add_member, keep_member, remove_member,
  insert_channel, create_channel, join_channel, leave_channel, write_member, update_channel_member,
  write_slug, rename_channel, topic_of, set_channel_topic, load_channel_for_archive,
  set_channel_archived,
}
use sshoosh.Dms.Writes.{
  dm_key, same_key, is_conversation, has_key, is_seat_of, is_other_seat, is_unread_message,
  conversation_conflicts, insert_seat, keep_seat, insert_conversation, message_conflicts, set_mark,
  with_message, write_message, set_message_body, delete_message_row, read_conversation,
  unread_conversation,
}
use sshoosh.Dms.Projector.{dm_created}
use sshoosh.Dms.Handlers.{
  dm_target, open_conversation, open_dm, send_dm, load_own_dm, update_dm_body, soft_delete_dm,
  load_seated_conversation, mark_conversation_read, mark_conversation_unread,
}
use sshoosh.Accounts.{
  is_account, update_account, set_user_disabled, set_user_role, load_target, ensure_own_or_manage,
  reserve_username, set_current_username_reservation_tx, ensure_username_unique, rename_user,
}
use sshoosh.Db.{Db}

unfoldable pub run : Result Db → Result Db
unfolding find count update_where select_where upsert delete_where text_eq trim trim_start_matches
    decimal sanitize_stored_text sanitize_single_line_text parse_labels parse_mentions
    normalize_name_key normalize_username normalize_slug insert_event insert_audit
    upsert_search_index_tx delete_search_index_tx delete_labels_tx delete_thread_labels_tx
    replace_labels_tx thread_label_text is_active is_member is_active_account
    account_can_view_source_tx create_notification_tx insert_mention mention_target mention_loop
    create_mention_notifications_tx thread_participants notify_loop notification_body
    create_thread_reply_notifications_tx source_is_visible mem_ℕ is_participant in_channel
    in_conversation dm_recipients create_dm_notifications_tx is_free_for load_account_tx
    ensure_can_view_channel load_channel_by_id_tx load_thread_meta_tx load_comment_meta_tx
    account_from_row can_admin is_owner is_admin require_admin_tx load_dm_message_meta_tx
    slug_argument load_channel_by_slug_tx load_channel_by_slug_any_tx ensure_can_manage_channel
    is_hash load_account_by_username_tx ensure_can_manage_account ensure_can_modify_thread
    ensure_not_last_active_owner is_active_owner ensure_username_reservable_tx is_at_sign
    username_reservation_owner_tx is_thread is_read_of is_live is_unread comment_conflicts
    count_comment read_up_to bump_unread_of bump_unread other_members with_comment write_comment
    delete_comment_row read_all unread_last upsert_thread_read_state thread_created comment_created
    add_comment create_thread soft_delete_comment load_own_comment can_moderate mark_thread_read
    mark_thread_unread mark_feed_read set_thread_muted set_thread_saved write_thread
    ensure_thread_name_available ensure_channel_name_available active_channel_exists is_named
    active_thread_name_exists update_comment_body set_comment_body update_thread ensure_title_free
    thread_edited edit_thread rename_thread is_pinned is_deletion flag_action set_flag
    update_thread_flag is_channel has_slug update_channel is_seat add_member keep_member
    remove_member insert_channel create_channel join_channel leave_channel write_member
    update_channel_member write_slug rename_channel topic_of set_channel_topic
    load_channel_for_archive set_channel_archived dm_key same_key is_conversation has_key is_seat_of
    is_other_seat is_unread_message conversation_conflicts insert_seat keep_seat insert_conversation
    message_conflicts set_mark with_message write_message set_message_body delete_message_row
    read_conversation unread_conversation dm_created dm_target open_conversation open_dm send_dm
    load_own_dm update_dm_body soft_delete_dm load_seated_conversation mark_conversation_read
    mark_conversation_unread is_account update_account set_user_disabled set_user_role load_target
    ensure_own_or_manage reserve_username set_current_username_reservation_tx ensure_username_unique
    rename_user
run result = result
