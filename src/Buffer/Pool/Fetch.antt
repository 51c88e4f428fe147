-- ===== src/Buffer/Pool/Fetch.antt =====
-- `FetchPage` of buffer/buffer_pool_manager.cpp.
use cpp_database_engine.Common.{
  ◌+◌, ◌<◌, ◌≡◌, ◌≢◌, refl, sym, ap, subst, ◌∙◌, ◌⊎◌, inl, inr, true, false, Option, none, some,
  List, arith, Bool-cases, if◌then◌else◌,
}
use cpp_database_engine.Common.Int.{ℤ, eqb_ℤ, eqb_ℤ_iff}
use cpp_database_engine.Common.SortedMap.{lookup, insert, lookup-insert}
use cpp_database_engine.Buffer.Disk.{DiskManager, page_at, read_page, page_at-read_page}
use cpp_database_engine.Buffer.Pool.{
  Replacer, Page, Pool, acquire_frame, install, hit, miss, fetch_page, ◌>>=◌,
}
use cpp_database_engine.Buffer.Pool.Content.{
  bytes_of, content, content_in, IsValid, acquire_frame-Acquired, of_some, >>=-eq-some,
}

-- What holds of a returned frame and pool.
returned :
    {S : Type 0} (P : ℤ → S → Type 0) (f f' : ℤ) (t t' : S)
    → ◌≡◌ {A = Option (Option ℤ × S)} (some (some f, t)) (some (some f', t'))
    → P f t
    → P f' t'
returned {S = S} P f f' t t' h holds =
    let pair : ◌≡◌ {A = Option ℤ × S} (some f, t) (some f', t') = of_some _ _ h in
    subst (λ x. P x t') (of_some f f' (ap (λ (r : Option ℤ × S). r.0) pair))
      (subst (P f) (ap (λ (r : Option ℤ × S). r.1) pair) holds)

module _ {Data : Type 0} (zeros : Data) (replacer : Replacer) where
  -- What a fetch that returned frame `f` has done.
  pub record Fetched (s : Pool Data replacer) (p f : ℤ) (s' : Pool Data replacer) : Type 0 where
    pub same : (q : ℤ) → content zeros replacer s' q ≡ content zeros replacer s q
    pub in_table : lookup p s'.page_table ≡ some f
    pub page : Page Data
    pub at_frame : lookup f s'.pages ≡ some page
    pub identity : page.bytes ≡ content zeros replacer s p
    pub pinned : 0 < page.pin_count

  lookup-insert_self :
      {V : Type 0} (k : ℤ) (v : V) (m : List (ℤ × V)) → lookup k (insert k v m) ≡ some v
  lookup-insert_self k v m =
      lookup-insert k k v m ∙ ap (λ b. if b then some v else lookup k m) ((eqb_ℤ_iff k k).1 refl)

  -- A frame whose bytes stay.
  same_bytes :
      (f g : ℤ) (page page' : Page Data) (pages : List (ℤ × Page Data))
      → lookup f pages ≡ some page
      → page'.bytes ≡ page.bytes
      → bytes_of zeros replacer (lookup g (insert f page' pages))
        ≡ bytes_of zeros replacer (lookup g pages)
  same_bytes f g page page' pages found same =
      ap (bytes_of zeros replacer) (lookup-insert f g page' pages)
      ∙ by_test (Bool-cases (eqb_ℤ f g))
    where
      by_test :
          (eqb_ℤ f g ≡ true) ⊎ (eqb_ℤ f g ≡ false)
          → bytes_of zeros replacer (if eqb_ℤ f g then some page' else lookup g pages)
            ≡ bytes_of zeros replacer (lookup g pages)
      by_test (inl this) =
          ap (λ b. bytes_of zeros replacer (if b then some page' else lookup g pages)) this
          ∙ same
          ∙ sym (
              ap (bytes_of zeros replacer)
                (ap (λ x. lookup x pages) (sym ((eqb_ℤ_iff f g).0 this)) ∙ found))
      by_test (inr other) =
          ap (λ b. bytes_of zeros replacer (if b then some page' else lookup g pages)) other

  content_in-same :
      (pages pages' : List (ℤ × Page Data)) (disk : DiskManager Data) (q : ℤ) (o : Option ℤ)
      → ((g : ℤ)
          → bytes_of zeros replacer (lookup g pages') ≡ bytes_of zeros replacer (lookup g pages))
      → content_in zeros replacer pages' disk q o ≡ content_in zeros replacer pages disk q o
  content_in-same pages pages' disk q none h = refl
  content_in-same pages pages' disk q (some g) h = h g

  hit-Fetched :
      (s s' : Pool Data replacer) (p f f' : ℤ)
      → lookup p s.page_table ≡ some f
      → hit zeros replacer s f ≡ some (some f', s')
      → Fetched s p f' s'
  unfolding hit
  hit-Fetched s s' p f f' cached h =
      let (page, found, h1) = >>=-eq-some (lookup f s.pages) _ h in
      let (state, accessed, h2) = >>=-eq-some (replacer.record_access s.state f) _ h1 in
      let page' = record page { pin_count = page.pin_count + 1 } in
      returned (Fetched s p) f f' _ s' h2 (record {
        same = λ q.
            content_in-same s.pages (insert f page' s.pages) s.disk q (lookup q s.page_table)
              (λ g. same_bytes f g page page' s.pages found refl);
        in_table = cached;
        page = page';
        at_frame = lookup-insert_self f page' s.pages;
        identity = sym (
            ap (content_in zeros replacer s.pages s.disk p) cached
            ∙ ap (bytes_of zeros replacer) found);
        pinned = omega arith;
      })

  -- The contents behind the installation of page `p` in a vacant frame.
  install_content :
      (t : Pool Data replacer) (p f : ℤ) (disk : DiskManager Data) (fresh : Page Data)
      → ((q : ℤ) → lookup q t.page_table ≢ some f)
      → lookup p t.page_table ≡ none
      → ((q : ℤ) → page_at zeros disk q ≡ page_at zeros t.disk q)
      → fresh.bytes ≡ page_at zeros t.disk p
      → (q : ℤ) (o : Option ℤ) → lookup q t.page_table ≡ o
      → (eqb_ℤ p q ≡ true) ⊎ (eqb_ℤ p q ≡ false)
      → content_in zeros replacer (insert f fresh t.pages) disk q (if eqb_ℤ p q then some f else o)
        ≡ content_in zeros replacer t.pages t.disk q o
  install_content t p f disk fresh vacant absent disk_same filled q o at_q (inl this) =
      let same : p ≡ q = (eqb_ℤ_iff p q).0 this in
      let gone : o ≡ none = sym at_q ∙ ap (λ x. lookup x t.page_table) (sym same) ∙ absent in
      ap (λ b. content_in zeros replacer (insert f fresh t.pages) disk q (if b then some f else o))
        this
      ∙ ap (bytes_of zeros replacer) (lookup-insert_self f fresh t.pages)
      ∙ filled
      ∙ ap (page_at zeros t.disk) same
      ∙ sym (ap (content_in zeros replacer t.pages t.disk q) gone)
  install_content t p f disk fresh vacant absent disk_same filled q none at_q (inr other) =
      ap
        (λ b.
          content_in zeros replacer (insert f fresh t.pages) disk q (if b then some f else none))
        other
      ∙ disk_same q
  install_content t p f disk fresh vacant absent disk_same filled q (some g) at_q (inr other) =
      ap
        (λ b.
          content_in zeros replacer (insert f fresh t.pages) disk q (if b then some f else some g))
        other
      ∙ ap (bytes_of zeros replacer) (
          lookup-insert f g fresh t.pages
          ∙ ap (λ b. if b then some fresh else lookup g t.pages)
              (different (Bool-cases (eqb_ℤ f g))))
    where
      different : (eqb_ℤ f g ≡ true) ⊎ (eqb_ℤ f g ≡ false) → eqb_ℤ f g ≡ false
      different (inl same) = absurd (vacant q (at_q ∙ ap some (sym ((eqb_ℤ_iff f g).0 same))))
      different (inr ne) = ne

  -- The new page in the frame of a pool that has neither the page nor anything in the frame.
  install-Fetched :
      (s t u : Pool Data replacer) (p f : ℤ) (disk : DiskManager Data)
      → ((q : ℤ) → content zeros replacer t q ≡ content zeros replacer s q)
      → ((q : ℤ) → lookup q t.page_table ≢ some f)
      → lookup p t.page_table ≡ none
      → ((q : ℤ) → page_at zeros disk q ≡ page_at zeros t.disk q)
      → install zeros replacer (record t { disk = disk }) f p (page_at zeros t.disk p) ≡ some u
      → Fetched s p f u
  unfolding install
  install-Fetched s t u p f disk same vacant absent disk_same h =
      let (state, accessed, h1) = >>=-eq-some (replacer.record_access t.state f) _ h in
      subst (Fetched s p f) (of_some _ u h1) (record {
        same = λ q.
            ap (content_in zeros replacer (insert f fresh t.pages) disk q)
              (lookup-insert p q f t.page_table)
            ∙ install_content t p f disk fresh vacant absent disk_same refl q
                (lookup q t.page_table) refl (Bool-cases (eqb_ℤ p q))
            ∙ same q;
        in_table = lookup-insert_self p f t.page_table;
        page = fresh;
        at_frame = lookup-insert_self f fresh t.pages;
        identity = sym (ap (content_in zeros replacer t.pages t.disk p) absent) ∙ same p;
        pinned = omega arith;
      })
    where
      fresh : Page Data
      fresh = record {
        bytes = page_at zeros t.disk p;
        page_id = p;
        pin_count = 1;
        is_dirty = false;
      }

  IsValid-counted :
      (s : Pool Data replacer)
      → IsValid zeros replacer s
      → IsValid zeros replacer (record s { num_misses = s.num_misses + 1 })
  IsValid-counted s valid = record {
    ascending = valid.ascending;
    placed = valid.placed;
    clean = valid.clean;
    free = valid.free;
    evictable = valid.evictable;
  }

  miss-Fetched :
      (s s' : Pool Data replacer) (p f : ℤ)
      → IsValid zeros replacer s
      → lookup p s.page_table ≡ none
      → miss zeros replacer s p ≡ some (some f, s')
      → Fetched s p f s'
  unfolding miss
  miss-Fetched s s' p f valid absent h =
      let (got, acquired, h1) = >>=-eq-some (acquire_frame zeros replacer counted) _ h in
      framed got acquired h1
    where
      counted : Pool Data replacer
      counted = record s { num_misses = s.num_misses + 1 }

      framed :
          (got : Option (ℤ × Pool Data replacer))
          → acquire_frame zeros replacer (record s { num_misses = s.num_misses + 1 }) ≡ some got
          → elim got as (λ x. Option (Option ℤ × Pool Data replacer)) [
            | none ↦ some (none, record s { num_misses = s.num_misses + 1 })
            | some g ↦ read_page zeros g.1.disk p >>= λ r.
                install zeros replacer (record g.1 { disk = r.0 }) g.0 p r.1 >>= λ u.
                some (some g.0, u)
          ]
            ≡ some (some f, s')
          → Fetched s p f s'
      framed none acquired h = absurd (cc)
      framed (some (g, t)) acquired h =
          let a =
            acquire_frame-Acquired zeros replacer counted t g (IsValid-counted s valid) acquired in
          let (r, read, h1) = >>=-eq-some (read_page zeros t.disk p) _ h in
          let (page, kept) = page_at-read_page zeros t.disk r.0 p r.1 read in
          let (u, installed, h2) =
            >>=-eq-some (install zeros replacer (record t { disk = r.0 }) g p r.1) _ h1 in
          returned (Fetched s p) g f u s' h2 (
            install-Fetched s t u p g r.0 a.same a.vacant (a.fewer p absent) kept (
              subst (λ bytes. install zeros replacer (record t { disk = r.0 }) g p bytes ≡ some u)
                (sym page) installed))

  -- FetchPage is transparent: when it returns a frame, from a pool whose page table and frames agree,
  -- whose unpinned clean pages are as on disk, whose free frames hold no page, and whose replacer
  -- would evict an unpinned page only, that frame is pinned, is the one that the page table gives for
  -- the page, and holds the page's content from before the call, from the pool or from disk; and the
  -- content of every page, in the pool or on disk, is what it was, also of a page that was evicted to
  -- make room.
  pub fetch_page-Fetched :
      (s s' : Pool Data replacer) (p f : ℤ)
      → IsValid zeros replacer s
      → fetch_page zeros replacer s p ≡ some (some f, s')
      → Fetched s p f s'
  unfolding fetch_page
  fetch_page-Fetched s s' p f valid h = looked_up (lookup p s.page_table) refl h
    where
      looked_up :
          (o : Option ℤ)
          → lookup p s.page_table ≡ o
          → elim o as (λ x. Option (Option ℤ × Pool Data replacer)) [
            | some g ↦ hit zeros replacer s g
            | none ↦ miss zeros replacer s p
          ]
            ≡ some (some f, s')
          → Fetched s p f s'
      looked_up none e k = miss-Fetched s s' p f valid e k
      looked_up (some g) e k = hit-Fetched s s' p g f e k
