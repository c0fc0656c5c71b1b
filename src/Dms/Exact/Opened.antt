-- ===== src/Dms/Exact/Opened.antt =====
-- Opening a conversation keeps the counters exact, and leaves one conversation for the two accounts,
-- in which both have a seat.
use sshoosh.Base.{
  ℕ, ◌+◌, ◌≤◌, ◌≡◌, refl, sym, ap, ◌∙◌, inl, inr, ◌⊎◌, true, false, Bool, none, some, List, [], ◌∷◌,
  ◌++◌, ◌==◌, leb, arith, Bool-cases, Option-cases, ==_iff, ==_refl, ok, >>=-ok, ok_inj,
}
use mathlib.Core.Path.{subst}
use sshoosh.Base.Tables.{find, count, exists, All}
use sshoosh.Base.Tables.Count.{count-append, count_found}
use sshoosh.Base.Tables.Find.{find-append, find_fits}
use sshoosh.Base.Tables.Rows.{All-append, All-mono, All-find}
use sshoosh.Db.{Chat, Env, ConversationRow, ConversationMemberRow}
use sshoosh.Dms.Writes.{
  dm_key, same_key, is_conversation, has_key, is_seat_of, new_seat, new_conversation,
  conversation_conflicts, insert_seat, insert_conversation,
}
use sshoosh.Dms.Handlers.{open_conversation}
use sshoosh.Dms.Exact.{index_of, last_index, IsWithin, IsExactSeat, IsPaired, IsExact}
use sshoosh.Dms.Exact.Sent.{unread-past_last}

pub dm_key_comm : (a b : ℕ) → dm_key a b ≡ dm_key b a
unfolding dm_key
dm_key_comm a b = ground arith

dm_key-cases : (a b : ℕ) → (dm_key a b ≡ (a, b)) ⊎ (dm_key a b ≡ (b, a))
unfolding dm_key
dm_key-cases a b = elim (Bool-cases (leb a b)) [ inl e ↦ inl (rw e) | inr e ↦ inr (rw e) ]

exists-append :
    (p : ConversationMemberRow → Bool) (xs : List ConversationMemberRow) (y : ConversationMemberRow)
    → exists p xs ≡ true
    → exists p (xs ++ y ∷ []) ≡ true
exists-append p xs y h = rw count-append (ground arith)

exists-append_new :
    (p : ConversationMemberRow → Bool) (xs : List ConversationMemberRow) (y : ConversationMemberRow)
    → p y ≡ true
    → exists p (xs ++ y ∷ []) ≡ true
exists-append_new p xs y h = rw count-append (rw h (ground arith))

-- Both accounts of a conversation sit in it, whichever comes first in its key.
pub record IsOpen (k a b : ℕ) (chat : Chat) : Type 0 where
  pub conversation : ConversationRow
  pub found : find (has_key (dm_key a b)) chat.conversations ≡ some conversation
  pub id : conversation.id ≡ k
  pub left : exists (is_seat_of k a) chat.conversation_members ≡ true
  pub right : exists (is_seat_of k b) chat.conversation_members ≡ true

module _ (env : Env) (a b : ℕ) (chat : Chat) (exact : IsExact chat) where
  abbrev row : ConversationRow
  row = new_conversation env a (dm_key a b)

  abbrev opened : Chat
  opened = record chat {
    conversations = chat.conversations ++ row ∷ [];
    conversation_members =
        (chat.conversation_members ++ new_seat env env.id a ∷ []) ++ new_seat env env.id b ∷ [];
  }

  inserted :
      (chat' : Chat)
      → insert_conversation env a b chat ≡ ok chat'
      → (conversation_conflicts row chat.conversations ≡ false) × (chat' ≡ opened)
  unfolding insert_conversation insert_seat
  inserted chat' h = (ground arith, ground arith)

  last-opened : (k : ℕ) → last_index k opened.conversations ≡ last_index k chat.conversations
  unfolding last_index is_conversation
  last-opened k =
      ap index_of (find-append (is_conversation k) chat.conversations row)
      ∙ elim (Option-cases (find (is_conversation k) chat.conversations)) [
        | inl e ↦ rw e (elim (Bool-cases (env.id == k)) [ inl d ↦ rw d | inr d ↦ rw d ])
        | inr (c, e) ↦ rw e
      ]

  module _ (fresh : conversation_conflicts row chat.conversations ≡ false) where
    no_id : count (is_conversation env.id) chat.conversations ≡ 0
    unfolding conversation_conflicts is_conversation
    no_id = ground arith

    no_key : count (has_key (dm_key a b)) chat.conversations ≡ 0
    unfolding conversation_conflicts has_key
    no_key = ground arith

    last_new : last_index env.id chat.conversations ≡ 0
    unfolding last_index
    last_new = elim (Option-cases (find (is_conversation env.id) chat.conversations)) [
      | inl e ↦ ap index_of e
      | inr (c, e) ↦ absurd (
          omega (
            arith,
            no_id,
            count_found (is_conversation env.id) (is_conversation env.id) chat.conversations c e
                (find_fits (is_conversation env.id) chat.conversations c e),
          ))
    ]

    fresh_seat :
        (account : ℕ)
        → IsExactSeat
            (λ k. last_index k opened.conversations)
            chat.conversation_messages
            (new_seat env env.id account)
    fresh_seat account = record {
      mark = ground arith;
      unread = sym (
          unread-past_last env.id 0 chat.conversation_messages (
            subst (λ n. All (IsWithin env.id n) chat.conversation_messages) last_new
              (exact.within env.id)));
    }

    own_seat : (account : ℕ) → is_seat_of env.id account (new_seat env env.id account) ≡ true
    unfolding is_seat_of
    own_seat account = rw (==_refl env.id, ==_refl account)

    left_seat : exists (is_seat_of env.id a) opened.conversation_members ≡ true
    left_seat =
        exists-append (is_seat_of env.id a)
          (chat.conversation_members ++ new_seat env env.id a ∷ []) _
          (exists-append_new (is_seat_of env.id a) chat.conversation_members _ (own_seat a))

    right_seat : exists (is_seat_of env.id b) opened.conversation_members ≡ true
    right_seat =
        exists-append_new (is_seat_of env.id b)
          (chat.conversation_members ++ new_seat env env.id a ∷ []) _ (own_seat b)

    row-IsPaired : IsPaired opened.conversation_members row
    row-IsPaired = elim (dm_key-cases a b) [
      | inl e ↦ record { left = rw e left_seat; right = rw e right_seat }
      | inr e ↦ record { left = rw e right_seat; right = rw e left_seat }
    ]

    grown :
        (k account : ℕ)
        → exists (is_seat_of k account) chat.conversation_members ≡ true
        → exists (is_seat_of k account) opened.conversation_members ≡ true
    grown k account h =
        exists-append (is_seat_of k account)
          (chat.conversation_members ++ new_seat env env.id a ∷ []) _
          (exists-append (is_seat_of k account) chat.conversation_members _ h)

    opened_ids : (k : ℕ) → count (is_conversation k) opened.conversations ≤ 1
    unfolding is_conversation
    opened_ids k = rw count-append (elim (Bool-cases (env.id == k)) [
      | inl e ↦ rw e (
          subst (λ j. count (λ c. c.id == j) chat.conversations + 1 ≤ 1) ((==_iff env.id k).0 e)
            (rw no_id (omega arith)))
      | inr e ↦ rw e (omega (arith, exact.conversation_ids k))
    ])

    opened-IsExact : IsExact opened
    opened-IsExact = record {
      message_ids = exact.message_ids;
      conversation_ids = opened_ids;
      within = λ k. rw (last-opened k) (exact.within k);
      seats =
          All-append _ (chat.conversation_members ++ new_seat env env.id a ∷ []) _
            (All-append _ chat.conversation_members _
              (All-mono chat.conversation_members
                (λ r h. record {
                  mark = rw (last-opened r.conversation_id) h.mark;
                  unread = h.unread;
                })
                exact.seats)
              (fresh_seat a))
            (fresh_seat b);
      paired =
          All-append _ chat.conversations row
            (All-mono chat.conversations
              (λ c h. record {
                left = grown c.id c.dm_key.0 h.left;
                right = grown c.id c.dm_key.1 h.right;
              })
              exact.paired)
            row-IsPaired;
    }

    has_own_key : has_key (dm_key a b) row ≡ true
    unfolding has_key same_key
    has_own_key = rw (==_refl (dm_key a b).0, ==_refl (dm_key a b).1)

    opened-IsOpen : find (has_key (dm_key a b)) chat.conversations ≡ none → IsOpen env.id a b opened
    opened-IsOpen absent = record {
      conversation = row;
      found = find-append _ chat.conversations row ∙ rw (absent, has_own_key);
      id = refl;
      left = left_seat;
      right = right_seat;
    }

  key_parts :
      (c : ConversationRow) (x y : ℕ)
      → has_key (x, y) c ≡ true
      → (c.dm_key.0 ≡ x) × (c.dm_key.1 ≡ y)
  unfolding has_key same_key
  key_parts c x y h = (ground arith, ground arith)

  existing_seats :
      (c : ConversationRow)
      → IsPaired chat.conversation_members c
      → has_key (dm_key a b) c ≡ true
      → (exists (is_seat_of c.id a) chat.conversation_members ≡ true)
        × (exists (is_seat_of c.id b) chat.conversation_members ≡ true)
  existing_seats c paired h = elim (dm_key-cases a b) [
    | inl e ↦
        let (x, y) = key_parts c a b (rw e at h) in (rw (← x) paired.left, rw (← y) paired.right)
    | inr e ↦
        let (x, y) = key_parts c b a (rw e at h) in (rw (← y) paired.right, rw (← x) paired.left)
  ]

  existing-IsOpen :
      (c : ConversationRow)
      → find (has_key (dm_key a b)) chat.conversations ≡ some c
      → IsOpen c.id a b chat
  existing-IsOpen c found =
      let seats =
        existing_seats c
          (All-find (IsPaired chat.conversation_members) _ chat.conversations c exact.paired found)
          (find_fits _ chat.conversations c found) in
      record { conversation = c; found = found; id = refl; left = seats.0; right = seats.1 }

  pub open_conversation-IsOpen :
      (k : ℕ) (chat' : Chat)
      → open_conversation env a b chat ≡ ok (k, chat')
      → IsExact chat' × IsOpen k a b chat'
  unfolding open_conversation
  open_conversation-IsOpen k chat' h =
      elim (Option-cases (find (has_key (dm_key a b)) chat.conversations)) [
        | inl e ↦
            let (chat'', h1, h2) =
              >>=-ok (insert_conversation env a b chat) _ (rw (open_conversation, e) at h) in
            let (fresh, same) = inserted chat'' h1 in
            let eq = ok_inj _ _ h2 in
            subst (λ (x : ℕ × Chat). IsExact x.1 × IsOpen x.0 a b x.1) eq
              (subst (λ x. IsExact x × IsOpen env.id a b x) (sym same)
                (opened-IsExact fresh, opened-IsOpen fresh e))
        | inr (c, e) ↦
            subst (λ (x : ℕ × Chat). IsExact x.1 × IsOpen x.0 a b x.1)
              (ok_inj _ _ (rw (open_conversation, e) at h)) (exact, existing-IsOpen c e)
      ]
