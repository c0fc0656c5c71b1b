-- ===== src/Channels/Sound.antt =====
-- What every step of the handlers of channels keeps.
use mathlib.Core.Path.{subst}
use sshoosh.Base.{
  ℕ, ◌≤◌, ◌≡◌, refl, sym, ap, ◌∙◌, inl, inr, true, false, Bool, ◌&&◌, none, some, List, [], ◌∷◌,
  ◌++◌, ◌==◌, ==_iff, is_none, arith, if◌then◌else◌, Bool-cases, Option-cases, some_inj,
}
use mathlib.Core.Option
use sshoosh.Base.Tables.{find, count, exists, update_where, delete_where}
use sshoosh.Base.Tables.Find.{find-update_where}
use sshoosh.Base.Tables.Count.{count-append, count-update_where}
use sshoosh.Text.{Text, text_eq}
use sshoosh.Db.{Env, Chat, ChannelRow, MemberRow}
use sshoosh.Channels.Handlers.{
  is_channel, has_slug, general, is_seat, add_member, keep_member, remove_member, update_channel,
}
use sshoosh.Channels.Steps.{IsMild}

pub text_eq-eq : (s t : Text) → text_eq s t ≡ true → s ≡ t
unfolding text_eq
text_eq-eq [] [] h = refl
text_eq-eq [] (b ∷ t) h = cc
text_eq-eq (a ∷ s) [] h = cc
text_eq-eq (a ∷ s) (b ∷ t) h = ground (arith, text_eq-eq s t)

-- Identifiers and slugs name one channel, and the creator of a channel is a member of it.
pub record IsSound (chat : Chat) : Type 0 where
  pub ids : (k : ℕ) → count (is_channel k) chat.channels ≤ 1
  pub slugs : (s : Text) → count (has_slug s) chat.channels ≤ 1
  pub creators :
      (k : ℕ) (c : ChannelRow)
      → find (is_channel k) chat.channels ≡ some c
      → exists (is_seat k c.created_by_account_id) chat.channel_members ≡ true

-- The channel of the identifier is #general, and not archived.
pub record IsGeneral (k : ℕ) (chat : Chat) : Type 0 where
  pub channel : ChannelRow
  pub found : find (is_channel k) chat.channels ≡ some channel
  pub slug : text_eq channel.slug general ≡ true
  pub open_still : is_none channel.archived_at ≡ true

pub seat-append :
    (k a : ℕ) (members : List MemberRow) (m : MemberRow)
    → exists (is_seat k a) members ≡ true
    → exists (is_seat k a) (members ++ m ∷ []) ≡ true
seat-append k a members m h = rw count-append (ground arith)

pub seat-append_own :
    (k a : ℕ) (members : List MemberRow) (m : MemberRow)
    → is_seat k a m ≡ true
    → exists (is_seat k a) (members ++ m ∷ []) ≡ true
seat-append_own k a members m h = rw count-append (rw h (ground arith))

-- A seat that is not removed stays.
seat-delete_where :
    (p q : MemberRow → Bool) (members : List MemberRow)
    → ((m : MemberRow) → p m ≡ true → q m ≡ false)
    → count p members ≤ count p (delete_where q members)
unfolding count delete_where
seat-delete_where p q [] h = omega arith
seat-delete_where p q (m ∷ members) h = ground (arith, h m, seat-delete_where p q members h)

module _ (before : Chat) (sound : IsSound before) where
  pub keep_member-IsSound : (env : Env) (k a : ℕ) → IsSound (keep_member env k a before)
  unfolding keep_member add_member
  keep_member-IsSound env k a = elim (Bool-cases (exists (is_seat k a) before.channel_members)) [
    | inl e ↦ rw e sound
    | inr e ↦ rw e (record {
      ids = sound.ids;
      slugs = sound.slugs;
      creators = λ j c h.
          seat-append j c.created_by_account_id before.channel_members _ (sound.creators j c h);
    })
  ]

  other_seat :
      (k a j b : ℕ)
      → (k == j && a == b) ≡ false
      → exists (is_seat j b) before.channel_members ≡ true
      → exists (is_seat j b) (remove_member k a before).channel_members ≡ true
  unfolding remove_member is_seat
  other_seat k a j b other h = ground (
    arith,
    h,
    seat-delete_where (is_seat j b) (is_seat k a) before.channel_members (λ m e. ground arith),
  )

  pub remove_member-IsSound :
      (channel : ChannelRow) (a : ℕ)
      → find (is_channel channel.id) before.channels ≡ some channel
      → (a == channel.created_by_account_id) ≡ false
      → IsSound (remove_member channel.id a before)
  unfolding remove_member
  remove_member-IsSound channel a found other = record {
    ids = sound.ids;
    slugs = sound.slugs;
    creators = λ j c h.
        other_seat channel.id a j c.created_by_account_id (not_both j c h) (sound.creators j c h);
  }
    where
      not_both :
          (j : ℕ) (c : ChannelRow)
          → find (is_channel j) before.channels ≡ some c
          → (channel.id == j && a == c.created_by_account_id) ≡ false
      not_both j c h = elim (Bool-cases (channel.id == j)) [
        | inr e ↦ rw e refl
        | inl e ↦
            let same : channel ≡ c = some_inj channel c (
              sym found
              ∙ ap (λ i. find (is_channel i) before.channels) ((==_iff channel.id j).0 e)
              ∙ h) in
            rw e (subst (λ (d : ChannelRow). (a == d.created_by_account_id) ≡ false) same other)
      ]

  -- The row that a channel had before an update that keeps its identity.
  pub old_row :
      (k : ℕ) (f : ChannelRow → ChannelRow) (j : ℕ) (c : ChannelRow)
      → ((d : ChannelRow) → (f d).id ≡ d.id)
      → find (is_channel j) (update_where (is_channel k) f before.channels) ≡ some c
      → (old : ChannelRow) × (find (is_channel j) before.channels ≡ some old)
        × (c ≡ (if is_channel k old then f old else old))
  old_row k f j c keep h = elim (Option-cases (find (is_channel j) before.channels)) [
    | inl e ↦ absurd (nothing (sym h ∙ renewed ∙ ap (Option.map _) e))
    | inr (old, e) ↦ (old, e, some_inj _ _ (sym h ∙ renewed ∙ ap (Option.map _) e))
  ]
    where
      nothing : (some c ≡ none) → ⊥
      nothing e = cc

      renewed :
          find (is_channel j) (update_where (is_channel k) f before.channels)
          ≡ Option.map
              (λ d. if is_channel k d then f d else d)
              (find (is_channel j) before.channels)
      renewed =
          find-update_where (is_channel j) (is_channel k) f before.channels
            (λ d. unfold is_channel in rw (keep d) refl)

  pub updated_creators :
      (k : ℕ) (f : ChannelRow → ChannelRow)
      → ((d : ChannelRow) → (f d).id ≡ d.id)
      → ((d : ChannelRow) → (f d).created_by_account_id ≡ d.created_by_account_id)
      → (j : ℕ) (c : ChannelRow)
      → find (is_channel j) (update_where (is_channel k) f before.channels) ≡ some c
      → exists (is_seat j c.created_by_account_id) before.channel_members ≡ true
  updated_creators k f keep creator j c h =
      let (old, e, same) = old_row k f j c keep h in
      subst (λ a. exists (is_seat j a) before.channel_members ≡ true)
        (sym (ap (λ (d : ChannelRow). d.created_by_account_id) same ∙ same_creator old))
        (sound.creators j old e)
    where
      same_creator :
          (old : ChannelRow)
          → (if is_channel k old then f old else old).created_by_account_id
            ≡ old.created_by_account_id
      same_creator old = elim (Bool-cases (is_channel k old)) [
        | inl e ↦ rw e (creator old)
        | inr e ↦ rw e refl
      ]

  pub updated_ids :
      (k : ℕ) (f : ChannelRow → ChannelRow)
      → ((d : ChannelRow) → (f d).id ≡ d.id)
      → (j : ℕ) → count (is_channel j) (update_where (is_channel k) f before.channels) ≤ 1
  updated_ids k f keep j =
      rw
        (count-update_where (is_channel j) (is_channel k) f before.channels
          (λ d. unfold is_channel in rw (keep d) refl))
        (sound.ids j)

  pub update_channel-IsSound :
      (channel : ChannelRow) (f : ChannelRow → ChannelRow)
      → IsMild channel f
      → IsSound (update_channel channel.id f before)
  unfolding update_channel
  update_channel-IsSound channel f mild = record {
    ids = updated_ids channel.id f mild.id;
    slugs = λ s.
        rw
          (count-update_where (has_slug s) (is_channel channel.id) f before.channels
            (λ d. unfold has_slug in rw (mild.slug d) refl))
          (sound.slugs s);
    creators = updated_creators channel.id f mild.id mild.creator;
  }
