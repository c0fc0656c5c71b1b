-- ===== src/Sample/Channels.antt =====
-- A run of channels: the member 2 makes a private channel and a public one.
use mathlib.Core.Path.{subst}
use sshoosh.Base.{
  inl, inr, Bool-cases, ==_iff, some_inj, ℕ, ◌≡◌, refl, true, false, not, none, some, ◌==◌, ◌&&◌,
  is_none, arith, Result, ok, err,
}
use sshoosh.Base.Tables.{find, count, exists}
use sshoosh.Text.{codes, text_eq}
use sshoosh.Db.{Db, ChannelRow}
use sshoosh.Guards.{Account, load_channel_by_slug_tx, load_account_by_username_tx, slug_argument}
use sshoosh.Channels.Handlers.{
  is_channel, has_slug, is_public, is_seat, create_channel, join_channel, update_channel_member,
  set_channel_archived,
}
use sshoosh.Channels.Steps.{Steps, created, joined, managed, archived, done, next}
use sshoosh.Channels.Sound.{IsSound, IsGeneral}
use sshoosh.Channels.General.{Steps-IsSound}
use sshoosh.Channels.Members.{IsSeated, IsManager, join_channel_lem, update_channel_member_lem}
use sshoosh.Sample.Run.{run}
use sshoosh.Sample.{sample_db, sample_env, sample_chat, sample_channel}

abbrev after_ok : Result Db → Db
after_ok (ok db) = db
after_ok (err e) = sample_db

creator_there :
    (k : ℕ) (c : ChannelRow)
    → find (is_channel k) sample_chat.channels ≡ some c
    → exists (is_seat k c.created_by_account_id) sample_chat.channel_members ≡ true
unfolding count find is_channel is_seat
creator_there k c h = elim (Bool-cases (7 == k)) [
  | inr e ↦ absurd (nothing (rw e at h))
  | inl e ↦
      subst (λ j. exists (is_seat j c.created_by_account_id) sample_chat.channel_members ≡ true)
        ((==_iff 7 k).0 e)
        (subst
          (λ (d : ChannelRow).
            exists (is_seat 7 d.created_by_account_id) sample_chat.channel_members ≡ true)
          (some_inj sample_channel c (rw e at h)) refl)
]
  where
    nothing : none ≡ some c → ⊥
    nothing e = cc

sample-IsSound : IsSound sample_chat
unfolding count find is_channel has_slug is_seat
sample-IsSound = record {
  ids = λ k. ground arith;
  slugs = λ s. ground arith;
  creators = creator_there;
}

sample-IsGeneral : IsGeneral 7 sample_chat
sample-IsGeneral = record {
  channel = sample_channel;
  found = unfold run in refl;
  slug = unfold run in refl;
  open_still = refl;
}

secret : Db
secret = after_ok (create_channel (sample_env 50) 2 (codes "Plans") true sample_db)

secret_is : create_channel (sample_env 50) 2 (codes "Plans") true sample_db ≡ ok secret
unfolding secret run
secret_is = refl

shared : Db
shared = after_ok (update_channel_member (sample_env 51) 2 (codes "#plans") (codes "d") true secret)

shared_is :
    update_channel_member (sample_env 51) 2 (codes "#plans") (codes "d") true secret ≡ ok shared
unfolding shared secret run
shared_is = refl

shared_example :
    (channel : ChannelRow) × (target : Account) × (load_channel_by_slug_tx
        (sample_env 51)
        (codes "#plans")
        secret
      ≡ ok channel)
    × (load_account_by_username_tx (sample_env 51) (codes "d") secret ≡ ok target)
    × IsManager 2 channel secret
    × (not (is_public channel.visibility) ≡ true)
    × IsSeated channel.id target.id true secret.chat shared.chat
shared_example =
    update_channel_member_lem (sample_env 51) 2 (codes "#plans") (codes "d") true secret shared
      shared_is

lobby : Db
lobby = after_ok (create_channel (sample_env 52) 2 (codes "lobby") false shared)

lobby_is : create_channel (sample_env 52) 2 (codes "lobby") false shared ≡ ok lobby
unfolding lobby shared secret run
lobby_is = refl

entered : Db
entered = after_ok (join_channel (sample_env 53) 3 (codes "#lobby") lobby)

entered_is : join_channel (sample_env 53) 3 (codes "#lobby") lobby ≡ ok entered
unfolding entered lobby shared secret run
entered_is = refl

entered_example :
    (channel : ChannelRow) × (find
        (λ c.
          text_eq c.slug (slug_argument (sample_env 53) (codes "#lobby")) && is_none c.archived_at)
        lobby.channels
      ≡ some channel)
    × (is_public channel.visibility ≡ true)
    × IsSeated channel.id 3 true lobby.chat entered.chat
entered_example = join_channel_lem (sample_env 53) 3 (codes "#lobby") lobby entered entered_is

closed : Db
closed = after_ok (set_channel_archived (sample_env 54) 2 (codes "plans") true entered)

closed_is : set_channel_archived (sample_env 54) 2 (codes "plans") true entered ≡ ok closed
unfolding closed entered lobby shared secret run
closed_is = refl

steps : Steps sample_db closed
steps =
    next
      (next
        (next
          (next (next done (created (sample_env 50) 2 (codes "Plans") true secret_is))
            (managed (sample_env 51) 2 (codes "#plans") (codes "d") true shared_is))
          (created (sample_env 52) 2 (codes "lobby") false lobby_is))
        (joined (sample_env 53) 3 (codes "#lobby") entered_is))
      (archived (sample_env 54) 2 (codes "plans") true closed_is)

closed-IsSound : IsSound closed.chat × IsGeneral 7 closed.chat
closed-IsSound = Steps-IsSound sample_db closed 7 sample-IsSound sample-IsGeneral steps
