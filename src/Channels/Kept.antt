-- ===== src/Channels/Kept.antt =====
-- The writes of the handlers of channels keep the tables sound.
use mathlib.Core.Path.{subst}
use sshoosh.Base.{
  ℕ, ◌≤◌, ◌≡◌, refl, sym, ◌∙◌, inl, inr, true, false, Bool, ◌&&◌, not, none, some, [], ◌∷◌, ◌++◌,
  ◌==◌, ==_iff, ==_refl, arith, ok, Bool-cases, Option-cases, some_inj,
}
use sshoosh.Base.Tables.{find, count, exists, update_where}
use sshoosh.Base.Tables.Find.{find-append}
use sshoosh.Base.Tables.Count.{count-append, count-update_where_parts, count_mono, count-false}
use sshoosh.Text.{Text, text_eq}
use sshoosh.Db.{Env, Chat, ChannelRow, owner}
use sshoosh.Channels.Handlers.{
  is_channel, has_slug, is_seat, new_channel, add_member, update_channel, insert_channel,
  write_slug,
}
use sshoosh.Channels.Steps.{Write, inserts, keeps, removes, updates, renames}
use sshoosh.Channels.Sound.{
  IsSound, seat-append, seat-append_own, keep_member-IsSound, remove_member-IsSound,
  updated_creators, updated_ids, update_channel-IsSound, text_eq-eq,
}

module _ (before : Chat) (sound : IsSound before) where
  renamed_slugs :
      (k : ℕ) (f : ChannelRow → ChannelRow) (slug s : Text)
      → ((d : ChannelRow) → (f d).slug ≡ slug)
      → exists (λ c. not (is_channel k c) && has_slug slug c) before.channels ≡ false
      → count (has_slug s) (update_where (is_channel k) f before.channels) ≤ 1
  renamed_slugs k f slug s renamed free =
      rw (count-update_where_parts (has_slug s) (is_channel k) f before.channels)
        (elim (Bool-cases (text_eq slug s)) [
          | inl e ↦ omega (arith, none_else e, sound.ids k, own)
          | inr e ↦ omega (arith, none_own e, sound.slugs s, rest)
        ])
    where
      own :
          count (λ c. is_channel k c && has_slug s (f c)) before.channels
          ≤ count (is_channel k) before.channels
      own = count_mono _ (is_channel k) before.channels (λ c h. ground arith)

      rest :
          count (λ c. not (is_channel k c) && has_slug s c) before.channels
          ≤ count (has_slug s) before.channels
      rest = count_mono _ (has_slug s) before.channels (λ c h. ground arith)

      none_else :
          text_eq slug s ≡ true
          → count (λ c. not (is_channel k c) && has_slug s c) before.channels ≡ 0
      none_else e =
          subst (λ t. count (λ c. not (is_channel k c) && has_slug t c) before.channels ≡ 0)
            (text_eq-eq slug s e) (ground (arith, free))

      other :
          text_eq slug s ≡ false → (c : ChannelRow) → (is_channel k c && has_slug s (f c)) ≡ false
      other e c = unfold has_slug in rw (renamed c, e) (ground arith)

      none_own :
          text_eq slug s ≡ false
          → count (λ c. is_channel k c && has_slug s (f c)) before.channels ≡ 0
      none_own e =
          count-false (λ c. is_channel k c && has_slug s (f c)) before.channels (λ c. other e c)

  pub wrote_slug :
      (env : Env) (k : ℕ) (slug : Text) (after : Chat)
      → write_slug env k slug before ≡ ok after
      → (exists (λ c. not (is_channel k c) && has_slug slug c) before.channels ≡ false)
        × (after
            ≡ update_channel k
                (λ c. record c { slug = slug; name = slug; updated_at = env.now })
                before)
  unfolding write_slug
  wrote_slug env k slug after h = (ground arith, ground arith)

  write_slug-IsSound :
      (env : Env) (k : ℕ) (slug : Text) (after : Chat)
      → write_slug env k slug before ≡ ok after
      → IsSound after
  unfolding update_channel
  write_slug-IsSound env k slug after h =
      let (free, same) = wrote_slug env k slug after h in
      subst IsSound (sym same) (record {
        ids = updated_ids before sound k _ (λ d. refl);
        slugs = λ s. renamed_slugs k _ slug s (λ d. refl) free;
        creators = updated_creators before sound k _ (λ d. refl) (λ d. refl);
      })

  pub inserted :
      (env : Env) (actor_id : ℕ) (slug : Text) (is_private : Bool) (after : Chat)
      → insert_channel env actor_id slug is_private before ≡ ok after
      → (count (is_channel env.id) before.channels ≡ 0)
        × (count (has_slug slug) before.channels ≡ 0)
        × (after
            ≡ add_member env env.id actor_id owner (record before {
              channels = before.channels ++ new_channel env actor_id slug is_private ∷ [];
            }))
  unfolding insert_channel
  inserted env actor_id slug is_private after h = (ground arith, ground arith, ground arith)

  fresh_once :
      (p : ChannelRow → Bool) (c : ChannelRow)
      → count p before.channels ≤ 1
      → (p c ≡ true → count p before.channels ≡ 0)
      → count p (before.channels ++ c ∷ []) ≤ 1
  fresh_once p c once fresh = rw count-append (elim (Bool-cases (p c)) [
    | inl e ↦ rw e (omega (arith, fresh e))
    | inr e ↦ rw e (omega (arith, once))
  ])

  insert_channel-IsSound :
      (env : Env) (actor_id : ℕ) (slug : Text) (is_private : Bool) (after : Chat)
      → insert_channel env actor_id slug is_private before ≡ ok after
      → IsSound after
  unfolding add_member is_seat
  insert_channel-IsSound env actor_id slug is_private after h =
      let (no_id, no_slug, same) = inserted env actor_id slug is_private after h in
      subst IsSound (sym same) (record {
        ids = λ k.
            fresh_once (is_channel k) row (sound.ids k)
              (λ e. subst (λ j. count (is_channel j) before.channels ≡ 0) (same_id k e) no_id);
        slugs = λ s.
            fresh_once (has_slug s) row (sound.slugs s)
              (λ e. subst (λ t. count (has_slug t) before.channels ≡ 0) (same_slug s e) no_slug);
        creators = λ k c g. elim (Option-cases (find (is_channel k) before.channels)) [
          | inr (old, e) ↦
              let known : old ≡ c = some_inj old c (sym (found_old k old e) ∙ g) in
              seat-append k c.created_by_account_id before.channel_members _ (
                subst
                  (λ (d : ChannelRow).
                    exists (is_seat k d.created_by_account_id) before.channel_members ≡ true)
                  known (sound.creators k old e))
          | inl e ↦
              let (own, known) = found_new k c e g in
              seat-append_own k c.created_by_account_id before.channel_members _ (
                subst
                  (λ (d : ChannelRow). (env.id == k && actor_id == d.created_by_account_id) ≡ true)
                  known (rw (own_id k own, ==_refl actor_id) refl))
        ];
      })
    where
      row : ChannelRow
      row = new_channel env actor_id slug is_private

      same_id : (k : ℕ) → is_channel k row ≡ true → env.id ≡ k
      same_id k e = (==_iff env.id k).0 (unfold is_channel in e)

      own_id : (k : ℕ) → is_channel k row ≡ true → (env.id == k) ≡ true
      own_id k e = unfold is_channel in e

      same_slug : (s : Text) → has_slug s row ≡ true → slug ≡ s
      same_slug s e = text_eq-eq slug s (unfold has_slug in e)

      found_old :
          (k : ℕ) (old : ChannelRow)
          → find (is_channel k) before.channels ≡ some old
          → find (is_channel k) (before.channels ++ row ∷ []) ≡ some old
      found_old k old e = find-append (is_channel k) before.channels row ∙ rw e refl

      not_found : (c : ChannelRow) → none ≡ some c → ⊥
      not_found c e = cc

      found_new :
          (k : ℕ) (c : ChannelRow)
          → find (is_channel k) before.channels ≡ none
          → find (is_channel k) (before.channels ++ row ∷ []) ≡ some c
          → (is_channel k row ≡ true) × (row ≡ c)
      found_new k c e g =
          let appended = sym (find-append (is_channel k) before.channels row) ∙ g in
          elim (Bool-cases (is_channel k row)) [
            | inl f ↦ (f, some_inj row c (rw (e, f) at appended))
            | inr f ↦ absurd (not_found c (rw (e, f) at appended))
          ]

  pub Write-IsSound : (after : Chat) → Write before after → IsSound after
  Write-IsSound after (inserts env actor_id slug is_private h) =
      insert_channel-IsSound env actor_id slug is_private after h
  Write-IsSound after (keeps env k a same) =
      subst IsSound (sym same) (keep_member-IsSound before sound env k a)
  Write-IsSound after (removes channel a found other same) =
      subst IsSound (sym same) (remove_member-IsSound before sound channel a found other)
  Write-IsSound after (updates channel f found mild same) =
      subst IsSound (sym same) (update_channel-IsSound before sound channel f mild)
  Write-IsSound after (renames env channel slug found other h) =
      write_slug-IsSound env channel.id slug after h
