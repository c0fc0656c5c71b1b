-- ===== src/Channels/General.antt =====
-- What holds of the channels in every state that the handlers reach.
use mathlib.Core.Path.{subst}
use sshoosh.Base.{
  ℕ, ◌≡◌, refl, sym, ap, ◌∙◌, inl, inr, ◌⊎◌, true, false, some, ==_iff, is_none, if◌then◌else◌,
  Bool-cases, some_inj,
}
use mathlib.Core.Option
use sshoosh.Base.Tables.{find, exists, update_where}
use sshoosh.Base.Tables.Find.{find-append, find-update_where, find_fits}
use sshoosh.Text.{text_eq}
use sshoosh.Db.{Db, Env, Chat, ChannelRow}
use sshoosh.Channels.Handlers.{
  is_channel, general, is_seat, add_member, keep_member, remove_member, update_channel,
}
use sshoosh.Channels.Steps.{
  Steps, Step-Write, Write, inserts, keeps, removes, updates, renames, done, next,
}
use sshoosh.Channels.Sound.{IsSound, IsGeneral}
use sshoosh.Channels.Kept.{Write-IsSound, inserted, wrote_slug}

no_path : false ≡ true → ⊥
no_path e = cc

module _ (before : Chat) (k : ℕ) (sound : IsSound before) (g : IsGeneral k before) where
  channels-IsGeneral : (after : Chat) → after.channels ≡ before.channels → IsGeneral k after
  channels-IsGeneral after same = record {
    channel = g.channel;
    found = ap (find (is_channel k)) same ∙ g.found;
    slug = g.slug;
    open_still = g.open_still;
  }

  keep_member-IsGeneral : (env : Env) (j a : ℕ) → IsGeneral k (keep_member env j a before)
  unfolding keep_member add_member
  keep_member-IsGeneral env j a = elim (Bool-cases (exists (is_seat j a) before.channel_members)) [
    | inl e ↦ rw e g
    | inr e ↦ rw e (channels-IsGeneral _ refl)
  ]

  -- An update of the row of another channel, or one that keeps the slug and the archive mark.
  update_channel-IsGeneral :
      (channel : ChannelRow) (f : ChannelRow → ChannelRow)
      → find (is_channel channel.id) before.channels ≡ some channel
      → ((d : ChannelRow) → (f d).id ≡ d.id)
      → (text_eq channel.slug general ≡ false)
        ⊎ ((d : ChannelRow) → ((f d).slug ≡ d.slug) × ((f d).archived_at ≡ d.archived_at))
      → IsGeneral k (update_channel channel.id f before)
  unfolding update_channel
  update_channel-IsGeneral channel f found keep apart =
      elim (Bool-cases (is_channel channel.id g.channel)) [
        | inr e ↦ record {
          channel = g.channel;
          found = renewed ∙ rw e refl;
          slug = g.slug;
          open_still = g.open_still;
        }
        | inl e ↦ elim apart [
          | inl other ↦ absurd (
              no_path
                (sym other ∙ ap (λ (d : ChannelRow). text_eq d.slug general) (same e) ∙ g.slug))
          | inr mild ↦ record {
            channel = f g.channel;
            found = renewed ∙ rw e refl;
            slug = ap (λ t. text_eq t general) (mild g.channel).0 ∙ g.slug;
            open_still = ap is_none (mild g.channel).1 ∙ g.open_still;
          }
        ]
      ]
    where
      renewed :
          find (is_channel k) (update_where (is_channel channel.id) f before.channels)
          ≡ some (if is_channel channel.id g.channel then f g.channel else g.channel)
      renewed =
          find-update_where (is_channel k) (is_channel channel.id) f before.channels
            (λ d. unfold is_channel in rw (keep d) refl)
          ∙ ap (Option.map _) g.found

      same_id : is_channel channel.id g.channel ≡ true → channel.id ≡ k
      same_id e =
          sym ((==_iff g.channel.id channel.id).0 (unfold is_channel in e))
          ∙ (==_iff g.channel.id k).0
              (unfold is_channel in find_fits (is_channel k) before.channels g.channel g.found)

      same : is_channel channel.id g.channel ≡ true → channel ≡ g.channel
      same e =
          some_inj channel g.channel
            (sym found ∙ ap (λ i. find (is_channel i) before.channels) (same_id e) ∙ g.found)

  Write-IsGeneral : (after : Chat) → Write before after → IsGeneral k after
  unfolding remove_member add_member
  Write-IsGeneral after (inserts env actor_id slug is_private h) =
      subst (IsGeneral k) (sym (inserted before sound env actor_id slug is_private after h).2)
        (record {
          channel = g.channel;
          found = find-append (is_channel k) before.channels _ ∙ rw g.found refl;
          slug = g.slug;
          open_still = g.open_still;
        })
  Write-IsGeneral after (keeps env j a same) =
      subst (IsGeneral k) (sym same) (keep_member-IsGeneral env j a)
  Write-IsGeneral after (removes channel a found other same) =
      subst (IsGeneral k) (sym same) (channels-IsGeneral _ refl)
  Write-IsGeneral after (updates channel f found mild same) = subst (IsGeneral k) (sym same) (
      update_channel-IsGeneral channel f found mild.id (elim mild.archive [
        | inl other ↦ inl other
        | inr open_still ↦ inr (λ d. (mild.slug d, open_still d))
      ]))
  Write-IsGeneral after (renames env channel slug found other h) =
      subst (IsGeneral k) (sym (wrote_slug before sound env channel.id slug after h).1)
        (update_channel-IsGeneral channel _ found (λ d. refl) (inl other))

-- In every state that the handlers of channels reach, identifiers and slugs name one channel, the
-- creator of a channel is a member of it, and #general is the channel that it was, not archived.
pub Steps-IsSound :
    (before after : Db) (k : ℕ)
    → IsSound before.chat
    → IsGeneral k before.chat
    → Steps before after
    → IsSound after.chat × IsGeneral k after.chat
Steps-IsSound before after k sound g done = (sound, g)
Steps-IsSound before after k sound g (next {middle} steps step) =
    let (sound', g') = Steps-IsSound before middle k sound g steps in
    let write = Step-Write middle after sound'.ids step in
    (
      Write-IsSound middle.chat sound' after.chat write,
      Write-IsGeneral middle.chat k sound' g' after.chat write,
    )
