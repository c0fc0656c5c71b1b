-- ===== src/Channels/Steps.antt =====
-- The handlers of channels as steps, and what each writes once its checks hold.
use mathlib.Core.Path.{subst}
use sshoosh.Base.{
  refuted, ℕ, ◌≤◌, ◌≡◌, refl, sym, ap, ◌∙◌, inl, inr, ◌⊎◌, true, false, Bool, ◌&&◌, not, some, ◌==◌,
  ==_refl, is_none, arith, if◌then◌else◌, ok, ensure, some_or, >>=-ok, some_or-eq-ok, ensure-eq-ok,
  ok_inj, not_activated, channel_not_found, general_stays, creator_stays, private_needs_invite,
  members_of_private_only,
}
use sshoosh.Base.Tables.{find, count}
use sshoosh.Base.Tables.Find.{find_same}
use sshoosh.Text.{Text, text_eq}
use sshoosh.Text.Name.{normalize_slug}
use sshoosh.Db.{Db, Env, Chat, ChannelRow}
use sshoosh.Feed.{insert_event, insert_audit}
use sshoosh.Guards.{
  load_account_tx, load_account_by_username_tx, load_channel_by_slug_tx,
  load_channel_by_slug_any_tx, slug_argument, ensure_can_manage_channel,
}
use sshoosh.Threads.Handlers.{ensure_channel_name_available}
use sshoosh.Channels.Handlers.{
  is_channel, general, is_public, update_channel, keep_member, remove_member, insert_channel,
  create_channel, join_channel, leave_channel, write_member, update_channel_member, write_slug,
  rename_channel, set_channel_topic, load_channel_for_archive, set_channel_archived,
}

pub data Step (before after : Db) : Type 0 where
  created :
      (env : Env) (actor_id : ℕ) (name : Text) (is_private : Bool)
      → create_channel env actor_id name is_private before ≡ ok after
      → Step before after
  joined :
      (env : Env) (actor_id : ℕ) (slug : Text)
      → join_channel env actor_id slug before ≡ ok after
      → Step before after
  left :
      (env : Env) (actor_id : ℕ) (slug : Text)
      → leave_channel env actor_id slug before ≡ ok after
      → Step before after
  managed :
      (env : Env) (actor_id : ℕ) (slug username : Text) (add : Bool)
      → update_channel_member env actor_id slug username add before ≡ ok after
      → Step before after
  renamed :
      (env : Env) (actor_id : ℕ) (slug next_name : Text)
      → rename_channel env actor_id slug next_name before ≡ ok after
      → Step before after
  described :
      (env : Env) (actor_id : ℕ) (slug topic : Text)
      → set_channel_topic env actor_id slug topic before ≡ ok after
      → Step before after
  archived :
      (env : Env) (actor_id : ℕ) (slug : Text) (archive : Bool)
      → set_channel_archived env actor_id slug archive before ≡ ok after
      → Step before after

pub data Steps (before : Db) : Db → Type 0 where
  done : Steps before before
  next : {middle after : Db} → Steps before middle → Step middle after → Steps before after

-- An update that leaves a channel its identity, and #general its archive mark.
pub record IsMild (channel : ChannelRow) (f : ChannelRow → ChannelRow) : Type 0 where
  pub id : (c : ChannelRow) → (f c).id ≡ c.id
  pub creator : (c : ChannelRow) → (f c).created_by_account_id ≡ c.created_by_account_id
  pub slug : (c : ChannelRow) → (f c).slug ≡ c.slug
  pub archive :
      (text_eq channel.slug general ≡ false)
      ⊎ ((c : ChannelRow) → (f c).archived_at ≡ c.archived_at)

-- The writes, each with what the checks before it have found.
pub data Write (before after : Chat) : Type 0 where
  inserts :
      (env : Env) (actor_id : ℕ) (slug : Text) (is_private : Bool)
      → insert_channel env actor_id slug is_private before ≡ ok after
      → Write before after
  keeps :
      (env : Env) (k account_id : ℕ)
      → after ≡ keep_member env k account_id before
      → Write before after
  removes :
      (channel : ChannelRow) (account_id : ℕ)
      → find (is_channel channel.id) before.channels ≡ some channel
      → (account_id == channel.created_by_account_id) ≡ false
      → after ≡ remove_member channel.id account_id before
      → Write before after
  updates :
      (channel : ChannelRow) (f : ChannelRow → ChannelRow)
      → find (is_channel channel.id) before.channels ≡ some channel
      → IsMild channel f
      → after ≡ update_channel channel.id f before
      → Write before after
  renames :
      (env : Env) (channel : ChannelRow) (slug : Text)
      → find (is_channel channel.id) before.channels ≡ some channel
      → text_eq channel.slug general ≡ false
      → write_slug env channel.id slug before ≡ ok after
      → Write before after

not_equal_sym : (a b : ℕ) → not (a == b) ≡ true → (b == a) ≡ false
not_equal_sym a b h = ground arith

module _ (before after : Db) (ids : (k : ℕ) → count (is_channel k) before.channels ≤ 1) where
  -- A channel that a handler loads is the one of its id.
  by_id :
      (q : ChannelRow → Bool) (channel : ChannelRow)
      → find q before.channels ≡ some channel
      → find (is_channel channel.id) before.channels ≡ some channel
  by_id q channel e =
      find_same (is_channel channel.id) q before.channels channel (ids channel.id) e
        (unfold is_channel in ==_refl channel.id)

  loaded :
      (env : Env) (slug : Text) (channel : ChannelRow)
      → load_channel_by_slug_tx env slug before ≡ ok channel
      → find (is_channel channel.id) before.channels ≡ some channel
  unfolding load_channel_by_slug_tx
  loaded env slug channel e = by_id _ channel (some_or-eq-ok _ channel_not_found e)

  loaded_any :
      (env : Env) (slug : Text) (archive : Bool) (channel : ChannelRow)
      → load_channel_for_archive env slug archive before ≡ ok channel
      → find (is_channel channel.id) before.channels ≡ some channel
  unfolding load_channel_for_archive load_channel_by_slug_any_tx
  loaded_any env slug true channel e = loaded env slug channel e
  loaded_any env slug false channel e = by_id _ channel (some_or-eq-ok _ channel_not_found e)

  chat_of : (db : Db) → ok db ≡ ok after → after.chat ≡ db.chat
  chat_of db e = sym (ap (λ (x : Db). x.chat) (ok_inj db after e))

  create_channel-Write :
      (env : Env) (actor_id : ℕ) (name : Text) (is_private : Bool)
      → create_channel env actor_id name is_private before ≡ ok after
      → Write before.chat after.chat
  unfolding create_channel insert_event
  create_channel-Write env actor_id name is_private h =
      let (a, e1, h1) = >>=-ok (load_account_tx actor_id before) _ h in
      let (u, e2, h2) = >>=-ok (ensure a.activated not_activated) _ h1 in
      let (slug, e3, h3) = >>=-ok (normalize_slug env.unicode_lower name) _ h2 in
      let (v, e4, h4) = >>=-ok (ensure_channel_name_available slug before) _ h3 in
      let (chat, e5, h5) = >>=-ok (insert_channel env actor_id slug is_private before.chat) _ h4 in
      inserts env actor_id slug is_private (e5 ∙ ap ok (sym (chat_of _ h5)))

  join_channel-Write :
      (env : Env) (actor_id : ℕ) (slug : Text)
      → join_channel env actor_id slug before ≡ ok after
      → Write before.chat after.chat
  unfolding join_channel insert_event
  join_channel-Write env actor_id slug h =
      let (a, e1, h1) = >>=-ok (load_account_tx actor_id before) _ h in
      let (u, e2, h2) = >>=-ok (ensure a.activated not_activated) _ h1 in
      let (channel, e3, h3) =
        >>=-ok
          (some_or
            (find (λ c. text_eq c.slug (slug_argument env slug) && is_none c.archived_at)
              before.channels)
            channel_not_found)
          _ h2 in
      let (v, e4, h4) = >>=-ok (ensure (is_public channel.visibility) private_needs_invite) _ h3 in
      keeps env channel.id actor_id (chat_of _ h4)

  leave_channel-Write :
      (env : Env) (actor_id : ℕ) (slug : Text)
      → leave_channel env actor_id slug before ≡ ok after
      → Write before.chat after.chat
  unfolding leave_channel insert_event insert_audit
  leave_channel-Write env actor_id slug h =
      let (a, e1, h1) = >>=-ok (load_account_tx actor_id before) _ h in
      let (u, e2, h2) = >>=-ok (ensure a.activated not_activated) _ h1 in
      let (channel, e3, h3) = >>=-ok (load_channel_by_slug_tx env slug before) _ h2 in
      let (v, e4, h4) = >>=-ok (ensure (not (text_eq channel.slug general)) general_stays) _ h3 in
      let (w, e5, h5) =
        >>=-ok (ensure (not (channel.created_by_account_id == actor_id)) creator_stays) _ h4 in
      removes channel actor_id (loaded env slug channel e3)
        (not_equal_sym channel.created_by_account_id actor_id (ensure-eq-ok _ creator_stays e5))
        (chat_of _ h5)

  write_member-Write :
      (env : Env) (channel : ChannelRow) (target_id : ℕ) (add : Bool) (chat : Chat)
      → find (is_channel channel.id) before.channels ≡ some channel
      → write_member env channel target_id add before.chat ≡ ok chat
      → Write before.chat chat
  unfolding write_member
  write_member-Write env channel target_id true chat e h =
      keeps env channel.id target_id (sym (ok_inj _ _ h))
  write_member-Write env channel target_id false chat e h =
      removes channel target_id e (ground arith) (ground arith)

  update_channel_member-Write :
      (env : Env) (actor_id : ℕ) (slug username : Text) (add : Bool)
      → update_channel_member env actor_id slug username add before ≡ ok after
      → Write before.chat after.chat
  unfolding update_channel_member insert_event insert_audit
  update_channel_member-Write env actor_id slug username add h =
      let (channel, e1, h1) = >>=-ok (load_channel_by_slug_tx env slug before) _ h in
      let (a, e2, h2) = >>=-ok (ensure_can_manage_channel actor_id channel before) _ h1 in
      let (u, e3, h3) =
        >>=-ok (ensure (not (is_public channel.visibility)) members_of_private_only) _ h2 in
      let (target, e4, h4) = >>=-ok (load_account_by_username_tx env username before) _ h3 in
      let (chat, e5, h5) = >>=-ok (write_member env channel target.id add before.chat) _ h4 in
      subst (Write before.chat) (sym (chat_of _ h5))
        (write_member-Write env channel target.id add chat (loaded env slug channel e1) e5)

  rename_channel-Write :
      (env : Env) (actor_id : ℕ) (slug next_name : Text)
      → rename_channel env actor_id slug next_name before ≡ ok after
      → Write before.chat after.chat
  unfolding rename_channel insert_event insert_audit
  rename_channel-Write env actor_id slug next_name h =
      let (next_slug, e0, h0) = >>=-ok (normalize_slug env.unicode_lower next_name) _ h in
      let (channel, e1, h1) = >>=-ok (load_channel_by_slug_tx env slug before) _ h0 in
      let (a, e2, h2) = >>=-ok (ensure_can_manage_channel actor_id channel before) _ h1 in
      let (u, e3, h3) = >>=-ok (ensure (not (text_eq channel.slug general)) general_stays) _ h2 in
      let (v, e4, h4) =
        >>=-ok
          (if text_eq channel.slug next_slug
            then ok tt
            else ensure_channel_name_available next_slug before)
          _ h3 in
      let (chat, e5, h5) = >>=-ok (write_slug env channel.id next_slug before.chat) _ h4 in
      renames env channel next_slug (loaded env slug channel e1)
        (refuted _ (ensure-eq-ok _ general_stays e3)) (e5 ∙ ap ok (sym (chat_of _ h5)))

  set_channel_topic-Write :
      (env : Env) (actor_id : ℕ) (slug topic : Text)
      → set_channel_topic env actor_id slug topic before ≡ ok after
      → Write before.chat after.chat
  unfolding set_channel_topic insert_event insert_audit
  set_channel_topic-Write env actor_id slug topic h =
      let (channel, e1, h1) = >>=-ok (load_channel_by_slug_tx env slug before) _ h in
      let (a, e2, h2) = >>=-ok (ensure_can_manage_channel actor_id channel before) _ h1 in
      updates channel _ (loaded env slug channel e1)
        (record {
          id = λ c. refl;
          creator = λ c. refl;
          slug = λ c. refl;
          archive = inr (λ c. refl);
        })
        (chat_of _ h2)

  set_channel_archived-Write :
      (env : Env) (actor_id : ℕ) (slug : Text) (archive : Bool)
      → set_channel_archived env actor_id slug archive before ≡ ok after
      → Write before.chat after.chat
  unfolding set_channel_archived insert_event insert_audit
  set_channel_archived-Write env actor_id slug archive h =
      let (channel, e1, h1) = >>=-ok (load_channel_for_archive env slug archive before) _ h in
      let (a, e2, h2) = >>=-ok (ensure_can_manage_channel actor_id channel before) _ h1 in
      let (u, e3, h3) = >>=-ok (ensure (not (text_eq channel.slug general)) general_stays) _ h2 in
      updates channel _ (loaded_any env slug archive channel e1)
        (record {
          id = λ c. refl;
          creator = λ c. refl;
          slug = λ c. refl;
          archive = inl (refuted _ (ensure-eq-ok _ general_stays e3));
        })
        (chat_of _ h3)

  pub Step-Write : Step before after → Write before.chat after.chat
  Step-Write (created env actor_id name is_private h) =
      create_channel-Write env actor_id name is_private h
  Step-Write (joined env actor_id slug h) = join_channel-Write env actor_id slug h
  Step-Write (left env actor_id slug h) = leave_channel-Write env actor_id slug h
  Step-Write (managed env actor_id slug username add h) =
      update_channel_member-Write env actor_id slug username add h
  Step-Write (renamed env actor_id slug next_name h) =
      rename_channel-Write env actor_id slug next_name h
  Step-Write (described env actor_id slug topic h) =
      set_channel_topic-Write env actor_id slug topic h
  Step-Write (archived env actor_id slug archive h) =
      set_channel_archived-Write env actor_id slug archive h
