-- ===== src/Channels/Members.antt =====
-- Who becomes a member of a channel and who ceases to be one.
use mathlib.Core.Path.{subst}
use sshoosh.Base.{
  ℕ, ◌≡◌, refl, ap, ◌∙◌, inl, inr, true, false, Bool, ◌&&◌, ◌||◌, not, some, List, [], ◌∷◌, ◌==◌,
  ==_refl, is_none, is_some, arith, ok, ensure, some_or, >>=-ok, some_or-eq-ok, ensure-eq-ok,
  ok_inj, Bool-cases, no_row, not_activated, channel_not_found, private_needs_invite,
  members_of_private_only,
}
use sshoosh.Base.Tables.{find, count, exists, delete_where}
use sshoosh.Base.Tables.Count.{count-append}
use sshoosh.Text.{Text, text_eq}
use sshoosh.Db.{Db, Env, Chat, AccountRow, ChannelRow, MemberRow}
use sshoosh.Feed.{insert_event, insert_audit}
use sshoosh.Guards.{
  Account, load_account_tx, account_from_row, can_admin, load_account_by_username_tx,
  load_channel_by_slug_tx, slug_argument, ensure_can_manage_channel,
}
use sshoosh.Channels.Handlers.{
  is_public, is_seat, add_member, keep_member, remove_member, join_channel, write_member,
  update_channel_member,
}

count-delete_where_other :
    (p q : MemberRow → Bool) (members : List MemberRow)
    → ((m : MemberRow) → p m ≡ true → q m ≡ false)
    → count p (delete_where q members) ≡ count p members
unfolding count delete_where
count-delete_where_other p q [] h = refl
count-delete_where_other p q (m ∷ members) h =
    ground (arith, h m, count-delete_where_other p q members h)

count-delete_where_self :
    (p : MemberRow → Bool) (members : List MemberRow) → count p (delete_where p members) ≡ 0
unfolding count delete_where
count-delete_where_self p [] = refl
count-delete_where_self p (m ∷ members) = ground (arith, count-delete_where_self p members)

-- Of all seats only that of the account in the channel is set, to `seated`.
pub record IsSeated (k a : ℕ) (seated : Bool) (before after : Chat) : Type 0 where
  pub own : exists (is_seat k a) after.channel_members ≡ seated
  pub others :
      (j b : ℕ)
      → (k == j && a == b) ≡ false
      → exists (is_seat j b) after.channel_members ≡ exists (is_seat j b) before.channel_members

keep_member-IsSeated :
    (env : Env) (k a : ℕ) (chat : Chat) → IsSeated k a true chat (keep_member env k a chat)
unfolding keep_member add_member is_seat
keep_member-IsSeated env k a chat = elim (Bool-cases (exists (is_seat k a) chat.channel_members)) [
  | inl e ↦ rw e (record { own = e; others = λ j b h. refl })
  | inr e ↦ rw e (record {
    own = rw count-append (rw (==_refl k, ==_refl a) (ground arith));
    others = λ j b h. rw count-append (rw h (ground arith));
  })
]

remove_member-IsSeated : (k a : ℕ) (chat : Chat) → IsSeated k a false chat (remove_member k a chat)
unfolding remove_member is_seat
remove_member-IsSeated k a chat = record {
  own = rw (count-delete_where_self (is_seat k a) chat.channel_members) refl;
  others = λ j b h.
      rw
        (count-delete_where_other (is_seat j b) (is_seat k a) chat.channel_members
          (λ m e. ground arith))
        refl;
}

-- Joining seats the actor in an open public channel, and changes no other membership.
pub join_channel_lem :
    (env : Env) (actor_id : ℕ) (slug : Text) (before after : Db)
    → join_channel env actor_id slug before ≡ ok after
    → (channel : ChannelRow) × (find
          (λ c. text_eq c.slug (slug_argument env slug) && is_none c.archived_at)
          before.channels
        ≡ some channel)
      × (is_public channel.visibility ≡ true)
      × IsSeated channel.id actor_id true before.chat after.chat
unfolding join_channel insert_event
join_channel_lem env actor_id slug before after h =
    let (a, e1, h1) = >>=-ok (load_account_tx actor_id before) _ h in
    let (u, e2, h2) = >>=-ok (ensure a.activated not_activated) _ h1 in
    let (channel, e3, h3) =
      >>=-ok
        (some_or
          (find (λ c. text_eq c.slug (slug_argument env slug) && is_none c.archived_at)
            before.channels)
          channel_not_found)
        _ h2 in
    let (v, e4, h4) = >>=-ok (ensure (is_public channel.visibility) private_needs_invite) _ h3 in
    (
      channel,
      some_or-eq-ok _ channel_not_found e3,
      ensure-eq-ok _ private_needs_invite e4,
      subst (IsSeated channel.id actor_id true before.chat)
          (ap (λ (db : Db). db.chat) (ok_inj _ _ h4))
          (keep_member-IsSeated env channel.id actor_id before.chat),
    )

-- The actor is an active account that is an administrator or created the channel.
pub record IsManager (actor_id : ℕ) (channel : ChannelRow) (db : Db) : Type 0 where
  pub row : AccountRow
  pub found : find (λ a. a.id == actor_id && is_none a.disabled_at) db.accounts ≡ some row
  pub active : is_some row.activated_at ≡ true
  pub allowed : (can_admin row.role || channel.created_by_account_id == actor_id) ≡ true

ensure_can_manage_channel-IsManager :
    (actor_id : ℕ) (channel : ChannelRow) (db : Db) (actor : Account)
    → ensure_can_manage_channel actor_id channel db ≡ ok actor
    → IsManager actor_id channel db
unfolding ensure_can_manage_channel load_account_tx account_from_row
ensure_can_manage_channel-IsManager actor_id channel db actor h =
    let (a, e1, h1) = >>=-ok (load_account_tx actor_id db) _ h in
    let (row, e2, h2) =
      >>=-ok (some_or (find (λ a. a.id == actor_id && is_none a.disabled_at) db.accounts) no_row) _
        e1 in
    let same = ok_inj (account_from_row row) a h2 in
    let (u, e3, h3) = >>=-ok (ensure a.activated not_activated) _ h1 in
    record {
      row = row;
      found = some_or-eq-ok _ no_row e2;
      active = ap (λ (x : Account). x.activated) same ∙ ensure-eq-ok _ not_activated e3;
      allowed =
          ap (λ (x : Account). can_admin x.role || channel.created_by_account_id == actor_id) same
          ∙ ground arith;
    }

write_member-IsSeated :
    (env : Env) (channel : ChannelRow) (target_id : ℕ) (add : Bool) (before after : Chat)
    → write_member env channel target_id add before ≡ ok after
    → IsSeated channel.id target_id add before after
unfolding write_member
write_member-IsSeated env channel target_id true before after h =
    subst (IsSeated channel.id target_id true before) (ok_inj _ _ h)
      (keep_member-IsSeated env channel.id target_id before)
write_member-IsSeated env channel target_id false before after h =
    subst (IsSeated channel.id target_id false before) (ground arith)
      (remove_member-IsSeated channel.id target_id before)

-- Members of a channel are added and removed only in private channels and only by who manages the
-- channel, one at a time.
pub update_channel_member_lem :
    (env : Env) (actor_id : ℕ) (slug username : Text) (add : Bool) (before after : Db)
    → update_channel_member env actor_id slug username add before ≡ ok after
    → (channel : ChannelRow) × (target : Account) × (load_channel_by_slug_tx env slug before
        ≡ ok channel)
      × (load_account_by_username_tx env username before ≡ ok target)
      × IsManager actor_id channel before
      × (not (is_public channel.visibility) ≡ true)
      × IsSeated channel.id target.id add before.chat after.chat
unfolding update_channel_member insert_event insert_audit
update_channel_member_lem env actor_id slug username add before after h =
    let (channel, e1, h1) = >>=-ok (load_channel_by_slug_tx env slug before) _ h in
    let (a, e2, h2) = >>=-ok (ensure_can_manage_channel actor_id channel before) _ h1 in
    let (u, e3, h3) =
      >>=-ok (ensure (not (is_public channel.visibility)) members_of_private_only) _ h2 in
    let (target, e4, h4) = >>=-ok (load_account_by_username_tx env username before) _ h3 in
    let (chat, e5, h5) = >>=-ok (write_member env channel target.id add before.chat) _ h4 in
    (
      channel,
      target,
      e1,
      e4,
      ensure_can_manage_channel-IsManager actor_id channel before a e2,
      ensure-eq-ok _ members_of_private_only e3,
      subst (IsSeated channel.id target.id add before.chat)
          (ap (λ (db : Db). db.chat) (ok_inj _ _ h5))
          (write_member-IsSeated env channel target.id add before.chat chat e5),
    )
