-- ===== src/Books/Ledger/Journal.antt =====
-- atreides/books/ledger.py: what `post` keeps of the journal.
use mathlib.Core.List.{append_assoc, append-nil}
use project_atreides.Books.Ledger.{
  JournalEntry, EquitiesBooks, post, dangling, duplicate_result, lookup, insert, Key,
}
use project_atreides.Common.{
  refl, sym, ap, inl, inr, Bool, true, false, not, none, some, List, [], arith, ok, Member,
  Bool-cases, Option-cases, String, Member-append_left, Member-append_right, ◌≡◌, ◌∙◌, ◌⊎◌, ◌&&◌,
  ◌∷◌, ◌++◌, if◌then◌else◌,
}
use project_atreides.Common.Key.{◌==◌, string_key}
use project_atreides.Common.Dict.{lookup-insert}

-- Every reversal among `es` names an entry before it, in `seen` or in `es`.
unfoldable pub reversals_known : List JournalEntry → List JournalEntry → Bool
reversals_known seen [] = true
reversals_known seen (e ∷ es) =
    not (dangling e.reverses_entry_id seen) && reversals_known (seen ++ e ∷ []) es

-- The journal and the index by source event agree, and reversals point back.
pub record IsValid (b : EquitiesBooks) : Type 0 where
  pub found :
      (e : JournalEntry) → Member e b.entries → lookup e.source_event_id b.by_source ≡ some e
  pub indexed :
      (id : String) (e : JournalEntry)
      → lookup id b.by_source ≡ some e
      → (e.source_event_id ≡ id) × Member e b.entries
  pub reversals : reversals_known [] b.entries ≡ true

reversals_known-snoc :
    (seen es : List JournalEntry) (e : JournalEntry)
    → reversals_known seen (es ++ e ∷ [])
      ≡ (reversals_known seen es && not (dangling e.reverses_entry_id (seen ++ es)))
unfolding reversals_known
reversals_known-snoc seen [] e = rw append-nil (ground arith)
reversals_known-snoc seen (x ∷ es) e =
    rw (reversals_known-snoc (seen ++ x ∷ []) es e, append_assoc seen (x ∷ []) es) (ground arith)

Member-snoc :
    (e x : JournalEntry) (es : List JournalEntry) → Member x (es ++ e ∷ []) → Member x es ⊎ (x ≡ e)
Member-snoc e x [] m = ground arith
Member-snoc e x (y ∷ es) m = ground (arith, Member-snoc e x es)

-- The books after an entry is appended.
abbrev append_entry : JournalEntry → EquitiesBooks → EquitiesBooks
append_entry e b = record b {
  entries = b.entries ++ e ∷ [];
  by_source = insert e.source_event_id e b.by_source;
}

append_entry-IsValid :
    (e : JournalEntry) (b : EquitiesBooks)
    → IsValid b
    → lookup e.source_event_id b.by_source ≡ none
    → dangling e.reverses_entry_id b.entries ≡ false
    → IsValid (append_entry e b)
append_entry-IsValid e b v new known = record {
  found = λ x m. rw lookup-insert (
      ground (
        arith,
        v.found x,
        string_key.eqb_iff e.source_event_id x.source_event_id,
        Member-snoc e x b.entries m,
      ));
  indexed = λ id x h.
      let h' : (if e.source_event_id == id then some e else lookup id b.by_source) ≡ some x =
        rw lookup-insert at h in
      ground (
        arith,
        string_key.eqb_iff e.source_event_id id,
        v.indexed id x,
        Member-append_left x b.entries (e ∷ []),
        Member-append_right x b.entries (e ∷ []),
      );
  reversals = ground (arith, reversals_known-snoc [] b.entries e, v.reversals);
}

module _ {Bytes : Type 0} ⦃k : Key Bytes⦄ (canonical : JournalEntry → Bytes) where
  -- The books after the entries are posted in turn, refused ones included.
  unfoldable pub run_posts : List JournalEntry → EquitiesBooks → EquitiesBooks
  run_posts [] b = b
  run_posts (e ∷ es) b = run_posts es (post canonical e b).1

  post-cases :
      (e : JournalEntry) (b : EquitiesBooks)
      → ((post canonical e b).1 ≡ b)
        ⊎ (((post canonical e b).1 ≡ append_entry e b)
            × (lookup e.source_event_id b.by_source ≡ none)
            × (dangling e.reverses_entry_id b.entries ≡ false))
  unfolding post
  post-cases e b = elim (Option-cases (lookup e.source_event_id b.by_source)) [
    | inr (original, h) ↦ inl (rw (post, h) refl)
    | inl h ↦ elim (Bool-cases (dangling e.reverses_entry_id b.entries)) [
      | inl d ↦ inl (rw (post, h, d) refl)
      | inr d ↦ inr (rw (post, h, d) refl, h, d)
    ]
  ]

  post-IsValid : (e : JournalEntry) (b : EquitiesBooks) → IsValid b → IsValid (post canonical e b).1
  post-IsValid e b v = elim (post-cases e b) [
    | inl same ↦ rw same v
    | inr (new, free, known) ↦ rw new (append_entry-IsValid e b v free known)
  ]

  -- Any entries posted in turn to valid books leave them valid: each entry of the journal is the one
  -- that its source event is indexed by, the index has no other, and every reversal names an entry
  -- before it.
  pub run_posts-IsValid :
      (es : List JournalEntry) (b : EquitiesBooks) → IsValid b → IsValid (run_posts es b)
  unfolding run_posts
  run_posts-IsValid [] b v = v
  run_posts-IsValid (e ∷ es) b v = run_posts-IsValid es (post canonical e b).1 (post-IsValid e b v)

  post-appends :
      (e : JournalEntry) (b : EquitiesBooks)
      → (new : List JournalEntry) × ((post canonical e b).1.entries ≡ b.entries ++ new)
  post-appends e b = elim (post-cases e b) [
    | inl same ↦ ([], rw (same, append-nil) refl)
    | inr (new, _, _) ↦ (e ∷ [], rw new refl)
  ]

  run_posts-appends :
      (es : List JournalEntry) (b : EquitiesBooks)
      → (new : List JournalEntry) × ((run_posts es b).entries ≡ b.entries ++ new)
  unfolding run_posts
  run_posts-appends [] b = ([], sym (append-nil b.entries))
  run_posts-appends (e ∷ es) b =
      let (new, h) = post-appends e b in
      let (more, h') = run_posts-appends es (post canonical e b).1 in
      (new ++ more, h' ∙ ap (λ x. x ++ more) h ∙ append_assoc b.entries new more)

  -- A source event is posted once: after an entry is in the journal of valid books, and whatever is
  -- posted after it, an entry of the same source event changes nothing and gets the original back.
  pub post_once :
      (original entry : JournalEntry) (later : List JournalEntry) (b : EquitiesBooks)
      → IsValid b
      → Member original b.entries
      → entry.source_event_id ≡ original.source_event_id
      → let s = run_posts later b in
        post canonical entry s ≡ (ok (duplicate_result canonical original entry), s)
  unfolding post
  post_once original entry later b v m same =
      let s = run_posts later b in
      let (new, grown) = run_posts-appends later b in
      let there : Member original s.entries =
        rw grown (Member-append_left original b.entries new m) in
      let found : lookup entry.source_event_id s.by_source ≡ some original =
        rw same ((run_posts-IsValid later b v).found original there) in
      rw (post, found) refl
