-- ===== src/Buffer/Pool/Content.antt =====
-- The content of a page through a `BufferPoolManager` (buffer/buffer_pool_manager.cpp): its frame's
-- bytes, where it has a frame, and the bytes on disk otherwise.
use cpp_database_engine.Common.{
  ◌≡◌, ◌≢◌, refl, sym, ap, subst, ◌∙◌, ◌⊎◌, inl, inr, Bool, true, false, Option, none, some, List,
  [], ◌∷◌, All, Bool-cases, if◌then◌else◌,
}
use cpp_database_engine.Common.Int.{ℤ, eqb_ℤ, eqb_ℤ_iff}
use cpp_database_engine.Common.SortedMap.{
  lookup, insert, erase, Ascending, lookup-insert, lookup-erase,
}
use cpp_database_engine.Buffer.Frames.{Eviction, victim, undefined, no_victim}
use cpp_database_engine.Buffer.Disk.{DiskManager, page_at, page_at-write_page}
use cpp_database_engine.Buffer.Pool.{Replacer, Page, Pool, blank, write_back, acquire_frame, ◌>>=◌}

pub of_some : {S : Type 0} (a b : S) → some a ≡ some b → a ≡ b
of_some a b e = cc

pub >>=-eq-some :
    {A B : Type 0} (first : Option A) (next : A → Option B) {result : B}
    → (first >>= next) ≡ some result
    → (a : A) × (first ≡ some a) × (next a ≡ some result)
>>=-eq-some none next h = absurd (cc)
>>=-eq-some (some a) next h = (a, refl, h)

module _ {Data : Type 0} (zeros : Data) (replacer : Replacer) where
  abbrev pub bytes_of : Option (Page Data) → Data
  bytes_of none = zeros
  bytes_of (some page) = page.bytes

  abbrev pub content_in : List (ℤ × Page Data) → DiskManager Data → ℤ → Option ℤ → Data
  content_in pages disk p none = page_at zeros disk p
  content_in pages disk p (some f) = bytes_of (lookup f pages)

  abbrev pub content : Pool Data replacer → ℤ → Data
  content s p = content_in s.pages s.disk p (lookup p s.page_table)

  -- The page table and the frames agree, an unpinned clean page is as on disk, free frames hold no
  -- page, and the frame that the replacer would evict holds an unpinned page.
  pub record IsValid (s : Pool Data replacer) : Type 0 where
    pub ascending : Ascending s.page_table
    pub placed :
        (p f : ℤ)
        → lookup p s.page_table ≡ some f
        → (page : Page Data) × (lookup f s.pages ≡ some page) × (page.page_id ≡ p)
    pub clean :
        (p f : ℤ) (page : Page Data)
        → lookup p s.page_table ≡ some f
        → lookup f s.pages ≡ some page
        → page.pin_count ≡ 0
        → page.is_dirty ≡ false
        → page.bytes ≡ page_at zeros s.disk p
    pub free : All (λ f. (p : ℤ) → lookup p s.page_table ≢ some f) s.free_list
    pub evictable :
        (f : ℤ) (state : replacer.State)
        → replacer.evict s.state ≡ victim f state
        → (page : Page Data) × (lookup f s.pages ≡ some page)
          × (lookup page.page_id s.page_table ≡ some f)
          × (page.pin_count ≡ 0)

  page_at-write_back :
      (disk disk' : DiskManager Data) (v : Page Data) (q : ℤ)
      → (v.is_dirty ≡ false → v.bytes ≡ page_at zeros disk v.page_id)
      → write_back zeros replacer disk v ≡ some disk'
      → page_at zeros disk' q ≡ (if eqb_ℤ v.page_id q then v.bytes else page_at zeros disk q)
  unfolding write_back
  page_at-write_back disk disk' v q clean h = elim (Bool-cases v.is_dirty) [
    | inl dirty ↦ page_at-write_page zeros disk disk' v.page_id q v.bytes (rw dirty at h)
    | inr untouched ↦
        let same : disk ≡ disk' = of_some disk disk' (rw untouched at h) in
        unchanged same (Bool-cases (eqb_ℤ v.page_id q)) (clean untouched)
  ]
    where
      unchanged :
          disk ≡ disk'
          → (eqb_ℤ v.page_id q ≡ true) ⊎ (eqb_ℤ v.page_id q ≡ false)
          → v.bytes ≡ page_at zeros disk v.page_id
          → page_at zeros disk' q ≡ (if eqb_ℤ v.page_id q then v.bytes else page_at zeros disk q)
      unchanged same (inl this) is_clean = rw this (
          ap (λ d. page_at zeros d q) (sym same)
          ∙ ap (page_at zeros disk) (sym ((eqb_ℤ_iff v.page_id q).0 this))
          ∙ sym is_clean)
      unchanged same (inr other) is_clean = rw other (ap (λ d. page_at zeros d q) (sym same))

  -- The pool without the victim's page.
  module _ (s : Pool Data replacer) (valid : IsValid s) (f : ℤ) (v : Page Data)
      (found : lookup f s.pages ≡ some v) (cached : lookup v.page_id s.page_table ≡ some f)
      (disk' : DiskManager Data) where
    -- Another page's frame is another frame.
    other_frame :
        (q g : ℤ) → lookup q s.page_table ≡ some g → eqb_ℤ v.page_id q ≡ false → eqb_ℤ f g ≡ false
    other_frame q g h other = elim (Bool-cases (eqb_ℤ f g)) [
      | inl same ↦
          let (page, at_g, is_q) = valid.placed q g h in
          let same_frame : f ≡ g = (eqb_ℤ_iff f g).0 same in
          let same_page : v ≡ page =
            of_some v page (sym found ∙ ap (λ x. lookup x s.pages) same_frame ∙ at_g) in
          let same_id : v.page_id ≡ q = ap (λ (x : Page Data). x.page_id) same_page ∙ is_q in
          let yes' = (eqb_ℤ_iff v.page_id q).1 same_id in absurd (cc)
      | inr ne ↦ ne
    ]

    erased :
        (q : ℤ)
        → lookup q (erase v.page_id s.page_table)
          ≡ (if eqb_ℤ v.page_id q then none else lookup q s.page_table)
    erased q = lookup-erase v.page_id q s.page_table valid.ascending

    -- A page that stays.
    content_kept :
        (q : ℤ) (o : Option ℤ)
        → lookup q s.page_table ≡ o
        → eqb_ℤ v.page_id q ≡ false
        → page_at zeros disk' q ≡ page_at zeros s.disk q
        → content_in (insert f (blank zeros replacer) s.pages) disk' q o
          ≡ content_in s.pages s.disk q o
    content_kept q none h other written = written
    content_kept q (some g) h other written = ap bytes_of (
        lookup-insert f g (blank zeros replacer) s.pages
        ∙ ap (λ b. if b then some (blank zeros replacer) else lookup g s.pages)
            (other_frame q g h other))

    content-evicted :
        ((q : ℤ)
          → page_at zeros disk' q ≡ (if eqb_ℤ v.page_id q then v.bytes else page_at zeros s.disk q))
        → (q : ℤ)
        → content_in
            (insert f (blank zeros replacer) s.pages)
            disk'
            q
            (lookup q (erase v.page_id s.page_table))
          ≡ content s q
    content-evicted written q = elim (Bool-cases (eqb_ℤ v.page_id q)) [
      | inl this ↦
          let here : lookup q s.page_table ≡ some f =
            ap (λ p. lookup p s.page_table) (sym ((eqb_ℤ_iff v.page_id q).0 this)) ∙ cached in
          ap (content_in _ disk' q)
            (erased q ∙ ap (λ b. if b then none else lookup q s.page_table) this)
          ∙ written q
          ∙ ap (λ b. if b then v.bytes else page_at zeros s.disk q) this
          ∙ sym (ap (content_in s.pages s.disk q) here ∙ ap bytes_of found)
      | inr other ↦
          ap (content_in _ disk' q)
            (erased q ∙ ap (λ b. if b then none else lookup q s.page_table) other)
          ∙ content_kept q (lookup q s.page_table) refl other
              (written q ∙ ap (λ b. if b then v.bytes else page_at zeros s.disk q) other)
    ]

  -- What `AcquireFrame` has done when it returns a frame: no page's content has changed, and the
  -- frame holds no page.
  pub record Acquired (s : Pool Data replacer) (f : ℤ) (s' : Pool Data replacer) : Type 0 where
    pub same : (q : ℤ) → content s' q ≡ content s q
    pub vacant : (q : ℤ) → lookup q s'.page_table ≢ some f
    pub fewer : (q : ℤ) → lookup q s.page_table ≡ none → lookup q s'.page_table ≡ none

  none_if : (b : Bool) → ◌≡◌ {A = Option ℤ} (if b then none else none) none
  none_if true = refl
  none_if false = refl

  -- The pool behind the eviction of `v` from frame `f`.
  abbrev evicted :
      Pool Data replacer → ℤ → replacer.State → Page Data → DiskManager Data → Pool Data replacer
  evicted s f state v disk' = record s {
    state = state;
    disk = disk';
    page_table = erase v.page_id s.page_table;
    pages = insert f (blank zeros replacer) s.pages;
  }

  evicted-Acquired :
      (s : Pool Data replacer) (f : ℤ) (state : replacer.State) (v : Page Data)
      (disk' : DiskManager Data)
      → IsValid s
      → replacer.evict s.state ≡ victim f state
      → lookup f s.pages ≡ some v
      → write_back zeros replacer s.disk v ≡ some disk'
      → Acquired s f (evicted s f state v disk')
  evicted-Acquired s f state v disk' valid chosen found written =
      let (page, at_f, in_table, unpinned) = valid.evictable f state chosen in
      let same : page ≡ v = of_some page v (sym at_f ∙ found) in
      let cached : lookup v.page_id s.page_table ≡ some f =
        subst (λ (x : Page Data). lookup x.page_id s.page_table ≡ some f) same in_table in
      let loose : v.pin_count ≡ 0 = subst (λ (x : Page Data). x.pin_count ≡ 0) same unpinned in
      record {
        same = content-evicted s valid f v found cached disk' (λ q.
            page_at-write_back s.disk disk' v q (valid.clean v.page_id f v cached found loose)
              written);
        vacant = λ q h. elim (Bool-cases (eqb_ℤ v.page_id q)) [
          | inl this ↦
              let gone =
                sym (
                  erased s valid f v found cached disk' q
                  ∙ ap (λ b. if b then none else lookup q s.page_table) this)
                ∙ h in
              absurd (cc)
          | inr other ↦
              let kept =
                sym (
                  erased s valid f v found cached disk' q
                  ∙ ap (λ b. if b then none else lookup q s.page_table) other)
                ∙ h in
              let ne = other_frame s valid f v found cached disk' q f kept other in
              let eq = (eqb_ℤ_iff f f).1 refl in absurd (cc)
        ];
        fewer = λ q absent.
            erased s valid f v found cached disk' q
            ∙ ap (λ o. if eqb_ℤ v.page_id q then none else o) absent
            ∙ none_if (eqb_ℤ v.page_id q);
      }

  -- The three answers of the replacer.
  Acquired-cases :
      (s s' : Pool Data replacer) (f : ℤ) (answer : Eviction replacer.State)
      → IsValid s
      → replacer.evict s.state ≡ answer
      → elim answer as (λ x. Option (Option (ℤ × Pool Data replacer))) [
        | undefined ↦ none
        | no_victim ↦ some none
        | victim g state ↦ lookup g s.pages >>= λ v. write_back zeros replacer s.disk v >>= λ disk'.
            some (some (g, evicted s g state v disk'))
      ]
        ≡ some (some (f, s'))
      → Acquired s f s'
  Acquired-cases s s' f undefined valid chosen h = absurd (cc)
  Acquired-cases s s' f no_victim valid chosen h = absurd (cc)
  Acquired-cases s s' f (victim g state) valid chosen h =
      let (v, found, h1) = >>=-eq-some (lookup g s.pages) _ h in
      let (disk', written, h2) = >>=-eq-some (write_back zeros replacer s.disk v) _ h1 in
      let pair = of_some _ (f, s') (of_some _ (some (f, s')) h2) in
      subst (λ (r : ℤ × Pool Data replacer). Acquired s r.0 r.1) pair
        (evicted-Acquired s g state v disk' valid chosen found written)

  Acquired-free :
      (s s' : Pool Data replacer) (f : ℤ) (l : List ℤ)
      → IsValid s
      → s.free_list ≡ l
      → elim l as (λ x. Option (Option (ℤ × Pool Data replacer))) [
        | g ∷ rest ↦ some (some (g, record s { free_list = rest }))
        | [] ↦ elim (replacer.evict s.state) as (λ x. Option (Option (ℤ × Pool Data replacer))) [
          | undefined ↦ none
          | no_victim ↦ some none
          | victim g state ↦ lookup g s.pages >>= λ v.
              write_back zeros replacer s.disk v >>= λ disk'.
              some (some (g, evicted s g state v disk'))
        ]
      ]
        ≡ some (some (f, s'))
      → Acquired s f s'
  Acquired-free s s' f [] valid e h = Acquired-cases s s' f (replacer.evict s.state) valid refl h
  Acquired-free s s' f (g ∷ rest) valid e h =
      let pair = of_some _ (f, s') (of_some _ (some (f, s')) h) in
      let head = (subst (All (λ x. (p : ℤ) → lookup p s.page_table ≢ some x)) e valid.free).0 in
      subst (λ (r : ℤ × Pool Data replacer). Acquired s r.0 r.1) pair
        (record { same = λ q. refl; vacant = head; fewer = λ q absent. absent })

  pub acquire_frame-Acquired :
      (s s' : Pool Data replacer) (f : ℤ)
      → IsValid s
      → acquire_frame zeros replacer s ≡ some (some (f, s'))
      → Acquired s f s'
  unfolding acquire_frame
  acquire_frame-Acquired s s' f valid h = Acquired-free s s' f s.free_list valid refl h
