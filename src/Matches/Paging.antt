-- ===== src/Matches/Paging.antt =====
-- Pages that are loaded one after the other, and a page that crosses a recalculation.
use scholarmatch_ai.Base.{
  true, false, List, [], ◌++◌, Option, none, some, ◌≡◌, ◌≢◌, refl, sym, ap, ◌∙◌, inl, inr,
  Bool-cases, none-some,
}
use mathlib.Core.Path.{subst}
use mathlib.Core.List.{append_cancel_left, append-nil}
use scholarmatch_ai.Base.Text.{Text}
use scholarmatch_ai.Api.Errors.{truthy}
use scholarmatch_ai.Matches.{
  Page, MatchList, returned, finish_recalculate, press_load_more, load_more_at, finish_load_more,
  press_recalculate,
}

-- The service's ranking: its first page, and the page at each cursor.
pub record Ranking (A : Type 0) : Type 0 where
  pub first_page : Page A
  pub page_at : Text → Page A

-- A list that holds the pages of a ranking, each asked for with the cursor of the one before.
pub data Holds {A : Type 0} (ranking : Ranking A) : List A → Option Text → Type 0 where
  first_only : Holds ranking ranking.first_page.items ranking.first_page.next_cursor
  one_more :
      {items : List A} {cursor : Option Text} {c : Text}
      → Holds ranking items cursor
      → truthy cursor ≡ some c
      → Holds ranking (items ++ (ranking.page_at c).items) (ranking.page_at c).next_cursor

abbrev pub HoldsList : {A : Type 0} → Ranking A → MatchList A → Type 0
HoldsList ranking m = Holds ranking m.items m.next_cursor

shut :
    {A : Type 0} (cursor : Text) (m : MatchList A)
    → m.loading_more ≡ true
    → load_more_at (some cursor) m ≡ (m, none)
shut cursor m busy = rw busy refl

free :
    {A : Type 0} (cursor : Text) (m : MatchList A)
    → m.loading_more ≡ false
    → load_more_at (some cursor) m ≡ (record m { loading_more = true; error = [] }, some cursor)
free cursor m idle = rw idle refl

load_more_at-asks :
    {A : Type 0} (o : Option Text) (m : MatchList A) (c : Text)
    → (load_more_at o m).1 ≡ some c
    → (o ≡ some c)
      × (m.loading_more ≡ false)
      × ((load_more_at o m).0 ≡ record m { loading_more = true; error = [] })
load_more_at-asks none m c e = absurd (none-some e)
load_more_at-asks (some d) m c e = elim (Bool-cases m.loading_more) [
  | inl busy ↦ absurd (none-some (sym (ap (λ x. x.1) (shut d m busy)) ∙ e))
  | inr idle ↦ let went = free d m idle in (sym (ap (λ x. x.1) went) ∙ e, idle, ap (λ x. x.0) went)
]

-- A page that is asked for and answered from the same ranking extends the list by exactly the page
-- after its last one; a page that fails leaves the items and the cursor. Either way the list holds
-- the pages of the ranking as before, and nothing is loading.
pub load_more-Holds :
    {A : Type 0} (ranking : Ranking A) (m : MatchList A) (c : Text)
    → HoldsList ranking m
    → (press_load_more m).1 ≡ some c
    → let asked = (press_load_more m).0 in
      let loaded = finish_load_more (some (ranking.page_at c)) asked in
      let unloaded = finish_load_more none asked in
      HoldsList ranking loaded
      × (loaded.items ≡ m.items ++ (ranking.page_at c).items)
      × HoldsList ranking unloaded
      × (unloaded.items ≡ m.items)
      × (loaded.loading_more ≡ false)
      × (unloaded.loading_more ≡ false)
unfolding press_load_more finish_load_more
load_more-Holds ranking m c h e =
    let (cursor, idle, asked) = load_more_at-asks (truthy m.next_cursor) m c e in
    let extended = one_more h cursor in
    let same = sym (ap (λ (x : MatchList _). x.items) asked) in
    let same_cursor = sym (ap (λ (x : MatchList _). x.next_cursor) asked) in
    (
      subst
          (λ items.
            Holds ranking (items ++ (ranking.page_at c).items) (ranking.page_at c).next_cursor)
          same extended,
      ap (λ items. items ++ (ranking.page_at c).items) (sym same),
      subst (λ items. Holds ranking items (load_more_at (truthy m.next_cursor) m).0.next_cursor)
          same (subst (λ x. Holds ranking m.items x) same_cursor h),
      sym same,
      refl,
      refl,
    )

-- A recalculation that succeeds leaves the first page of the new ranking, also where it was pressed
-- while a page was loading; but the page that was asked for before and comes after is then added
-- to it, and its cursor is the list's: with any item on that page, the list is not the one of the
-- other order, in which the recalculation comes last.
pub recalculate-load_more :
    {A : Type 0} (format_timestamp : Text → Text) (m : MatchList A) (c updated : Text)
    (ranking : Ranking A) (old_page : Page A)
    → m.pending ≡ false
    → (press_load_more m).1 ≡ some c
    → old_page.items ≢ []
    → let asked = (press_load_more m).0 in
      let pressed = press_recalculate asked in
      let fresh = finish_recalculate format_timestamp (returned (ranking.first_page, updated)) in
      let crossed = finish_load_more (some old_page) (fresh pressed.0) in
      let ordered = fresh (finish_load_more (some old_page) pressed.0) in
      (pressed.1 ≡ true)
      × HoldsList ranking (fresh pressed.0)
      × HoldsList ranking ordered
      × (crossed.items ≡ ranking.first_page.items ++ old_page.items)
      × (crossed.next_cursor ≡ old_page.next_cursor)
      × (crossed.items ≢ ordered.items)
unfolding press_load_more press_recalculate finish_load_more finish_recalculate
recalculate-load_more format_timestamp m c updated ranking old_page idle e filled =
    let (cursor, free_list, asked) = load_more_at-asks (truthy m.next_cursor) m c e in
    let waiting = ap (λ (x : MatchList _). x.pending) asked ∙ idle in
    (
      rw waiting refl,
      first_only,
      first_only,
      refl,
      refl,
      λ same. filled (
          append_cancel_left ranking.first_page.items old_page.items []
            (same ∙ sym (append-nil ranking.first_page.items))),
    )
