-- ===== src/Pager/Sound/Load.antt =====
-- How a page comes into memory: bring_in, which is get_free_physical_page and set_physical_page.
use eecs.Base.{
  Memᴰ, ℕ, ◌+◌, ◌≤◌, ◌<◌, ◌^◌, ◌≡◌, ◌≢◌, refl, sym, ap, ap₂, subst, ◌∙◌, ◌⊎◌, inl, inr, true, false,
  List, ◌∷◌, length, Option, none, some, arith, if◌then◌else◌, Bool-cases, Option-cases,
}
use eecs.Pager.Files.{FileId, is_swap_backed, assign_ne}
use eecs.Pager.Memory.{Page, FileEvent, Memory, frame, frame_lem, put, get_free_physical_page}
use eecs.Pager.Faults.{
  Status, success, failure, is_some, check_residence, read_result, install, on_success, load,
  load_first, set_physical_page, bring_in, and_then,
}
use eecs.Pager.Frames.{count, count_self}
use eecs.Pager.Tables.{put_self}
use eecs.Pager.Sound.{Accessible, Files, page_at, content, Kept}
use eecs.Pager.Sound.Evict.{AllSound}
use eecs.Pager.Sound.Search.{SteadyBut, Found, get_free_physical_page-Found}
use eecs.Pager.Sound.Install.{Pending, install-Pending, install-Kept}

module _ (read : List FileEvent → FileId → Option Page) (laws : Files read) (n : ℕ) where
  -- The page is in memory at `p`.
  pub record Loaded (v : ℕ) (s : Memory) (r : Option (Memory × Status)) : Type 0 where
    pub after : Memory
    pub p : ℕ
    pub result : r ≡ some (after, success)
    pub pending : Pending read n v p after
    pub kept : Kept read s after
    pub same_id : after.id ≡ s.id
    pub steady : SteadyBut (s.id v) s after
    pub not_zero : p ≢ 0
    pub closed : ¬ ((after.entry v).write_enable ≡ true)
    pub saved :
        s.peer_in_phys (s.id v) ≡ none → read after.log (after.id v) ≡ some (after.physmem p)

  -- The file could not be read.
  pub record Unread (v : ℕ) (s : Memory) (r : Option (Memory × Status)) : Type 0 where
    pub after : Memory
    pub result : r ≡ some (after, failure)
    pub sound : AllSound read n after
    pub kept : Kept read s after
    pub no_data : content read s (s.id v) ≡ none
    pub same_id : after.id ≡ s.id
    pub steady : SteadyBut (s.id v) s after

  module _ (v p : ℕ) (free : List ℕ) (s : Memory) (h : AllSound read n s)
      (mapped : Memᴰ v (s.peer_map (s.id v))) (first : s.available_physical_pages ≡ p ∷ free) where
    abbrev logged : Memory
    logged = record s { log = FileEvent.file_read (s.id v) ∷ s.log }

    logged-Kept : Kept read s logged
    logged-Kept i pg e = go (s.peer_in_phys i) e
      where
        go : (o : Option ℕ) → page_at read s i o ≡ some pg → page_at read logged i o ≡ some pg
        go none e = laws.kept_read s.log i (s.id v) pg e
        go (some q) e = e

    logged-Accessible : (i : FileId) → Accessible read s.log i → Accessible read logged.log i
    logged-Accessible i (inl e) = inl e
    logged-Accessible i (inr (pg, e)) = inr (pg, laws.kept_read s.log i (s.id v) pg e)

    logged-Sound : AllSound read n logged
    logged-Sound = record {
      small = h.small;
      frames = h.frames;
      holds = h.holds;
      back = h.back;
      member = h.member;
      linked = h.linked;
      readable = h.readable;
      writable = h.writable;
      clean = λ q o k d.
          laws.kept_read s.log ((s.physical_table q).id) (s.id v) (s.physmem q) (h.clean q o k d);
      accessible = λ q k. logged-Accessible ((s.physical_table q).id) (h.accessible q k);
      stored =
          λ i w m b e. let r = h.stored i w m b e in (r.0, laws.kept_read s.log i (s.id v) r.0 r.1);
      zero_page = h.zero_page;
      zero_swap = h.zero_swap;
      zero_clean = h.zero_clean;
    }

    closed_before :
        (s.peer_in_phys (s.id v) ≡ none) ⊎ (s.peer_in_phys (s.id v) ≡ some 0)
        → ¬ ((s.entry v).write_enable ≡ true)
    closed_before o e =
        let r = h.writable (s.id v) v (λ z. z) mapped e in
        elim o [
          | inl k ↦ let k' : Path (Option ℕ) none (some r.0) = sym k ∙ r.1 in cc
          | inr k ↦
              let k' : Path (Option ℕ) (some 0) (some r.0) = sym k ∙ r.1 in
              let z : 0 ≡ r.0 = cc in
              let d : (s.physical_table 0).dirty ≡ true =
                subst (λ x. (s.physical_table x).dirty ≡ true) (sym z) r.2 in
              let d' = h.zero_clean in cc
        ]

    not_zero : p ≢ 0
    not_zero e =
        let k = (h.frames p).1 (omega (arith, ap (count p) first, count_self p free)) in
        omega (arith, k.0, e)

    -- The page after the steps that read or copy it.
    installed-Loaded :
        (page : Page) (log : List FileEvent) (r : Option (Memory × Status))
        → (o : (s.peer_in_phys (s.id v) ≡ none) ⊎ (s.peer_in_phys (s.id v) ≡ some 0))
        → (k : (i : FileId) (pg : Page) → read s.log i ≡ some pg → read log i ≡ some pg)
        → (a : Accessible read log (s.id v))
        → ((pg : Page) → content read s (s.id v) ≡ some pg → page ≡ pg)
        → (s.peer_in_phys (s.id v) ≡ none → read log (s.id v) ≡ some page)
        → r
          ≡ some
              (install p free v (record s { physmem = put s.physmem p page; log = log }), success)
        → Loaded v s r
    unfolding install
    installed-Loaded page log r o k a right fresh e = record {
      after = install p free v (record s { physmem = put s.physmem p page; log = log });
      p = p;
      result = e;
      pending = install-Pending read n v p free s page log h mapped first o k a;
      kept = install-Kept read n v p free s page log h mapped first o k a right;
      same_id = refl;
      steady = (
        refl,
        refl,
        λ i ne z. assign_ne s.peer_in_phys (s.id v) i (some p) ne ∙ z,
        λ i ne z. assign_ne s.peer_in_phys (s.id v) i (some p) ne ∙ z,
      );
      not_zero = not_zero;
      closed = λ w. closed_before o (sym (ap (λ x. x.write_enable) (put_self s.entry v _)) ∙ w);
      saved = λ z. fresh z ∙ ap some (sym (put_self s.physmem p page));
    }

    set_physical_page-first :
        set_physical_page read v s ≡ some (on_success (install p free v) (load read p v s))
    unfolding set_physical_page
    set_physical_page-first = ap (λ l. load_first read l v s) first

    in_range : p < 2 ^ 16
    in_range =
        omega
          (arith, (h.frames p).1 (omega (arith, ap (count p) first, count_self p free)), h.small)

    abbrev copied : ℕ → ℕ → Memory
    copied a b = record s { physmem = put s.physmem a (s.physmem b) }

    load-there :
        s.peer_in_phys (s.id v) ≡ some 0 → load read p v s ≡ (copied p ((s.entry v).ppage), success)
    unfolding load check_residence
    load-there e =
        ap
          (λ o.
            if is_some o
            then (copied (frame p) (frame ((s.entry v).ppage)), success)
            else read_result p (s.id v) (read s.log (s.id v)) logged)
          e
        ∙ ap₂ (λ a b. (copied a b, success)) (frame_lem p in_range)
            (frame_lem _ (omega (arith, h.linked (s.id v) v 0 (λ z. z) mapped e)))

    load-absent :
        s.peer_in_phys (s.id v) ≡ none
        → load read p v s ≡ read_result p (s.id v) (read s.log (s.id v)) logged
    unfolding load check_residence
    load-absent e =
        ap
          (λ o.
            if is_some o
            then (copied (frame p) (frame ((s.entry v).ppage)), success)
            else read_result p (s.id v) (read s.log (s.id v)) logged)
          e

    -- The page is copied from the zero page.
    copy-Loaded : s.peer_in_phys (s.id v) ≡ some 0 → Loaded v s (set_physical_page read v s)
    copy-Loaded e =
        installed-Loaded (s.physmem ((s.entry v).ppage)) s.log (set_physical_page read v s) (inr e)
          (λ i pg k. k) (inl (h.zero_swap (s.id v) e))
          (λ pg k. some_inj (
            ap (λ x. some (s.physmem x)) (h.linked (s.id v) v 0 (λ z. z) mapped e)
            ∙ sym (ap (page_at read s (s.id v)) e)
            ∙ k))
          (λ k. let c : Path (Option ℕ) none (some 0) = sym k ∙ e in cc)
          (set_physical_page-first
            ∙ ap (λ x. some (on_success (install p free v) x)) (load-there e))
      where
        some_inj : {a b : Page} → some a ≡ some b → a ≡ b
        some_inj k = cc

    -- It is read.
    read-Loaded :
        (page : Page)
        → s.peer_in_phys (s.id v) ≡ none
        → read s.log (s.id v) ≡ some page
        → Loaded v s (set_physical_page read v s)
    unfolding read_result
    read-Loaded page e k =
        installed-Loaded page logged.log (set_physical_page read v s) (inl e)
          (λ i pg x. laws.kept_read s.log i (s.id v) pg x)
          (inr (page, laws.kept_read s.log (s.id v) (s.id v) page k))
          (λ pg x. some_inj (sym k ∙ sym (ap (page_at read s (s.id v)) e) ∙ x))
          (λ _. laws.kept_read s.log (s.id v) (s.id v) page k)
          (set_physical_page-first
            ∙ ap (λ x. some (on_success (install p free v) x))
                (load-absent e
                  ∙ ap (λ o. read_result p (s.id v) o logged) k
                  ∙ ap (λ a. (record logged { physmem = put s.physmem a page }, success))
                      (frame_lem p in_range)))
      where
        some_inj : {a b : Page} → some a ≡ some b → a ≡ b
        some_inj k = cc

    fail-file :
        s.peer_in_phys (s.id v) ≡ none
        → read s.log (s.id v) ≡ none
        → is_swap_backed (s.id v) ≡ false
    fail-file e k = elim (Bool-cases (is_swap_backed (s.id v))) [
      | inl b ↦
          let r = h.stored (s.id v) v mapped b e in
          let c : Path (Option Page) none (some r.0) = sym k ∙ r.1 in cc
      | inr b ↦ b
    ]

    fail-Unread :
        s.peer_in_phys (s.id v) ≡ none
        → read s.log (s.id v) ≡ none
        → Unread v s (set_physical_page read v s)
    unfolding read_result
    fail-Unread e k = record {
      after = logged;
      result =
          set_physical_page-first
          ∙ ap (λ x. some (on_success (install p free v) x))
              (load-absent e
                ∙ ap (λ o. read_result p (s.id v) o logged) k
                ∙ ap (λ b. (logged, if b then success else failure)) (fail-file e k));
      sound = logged-Sound;
      kept = logged-Kept;
      no_data = ap (page_at read s (s.id v)) e ∙ k;
      same_id = refl;
      steady = (refl, refl, λ i ne z. z, λ i ne z. z);
    }

    set_physical_page-Loaded :
        (s.peer_in_phys (s.id v) ≡ none) ⊎ (s.peer_in_phys (s.id v) ≡ some 0)
        → Loaded v s (set_physical_page read v s) ⊎ Unread v s (set_physical_page read v s)
    set_physical_page-Loaded (inr e) = inl (copy-Loaded e)
    set_physical_page-Loaded (inl e) = elim (Option-cases (read s.log (s.id v))) [
      | inl k ↦ inr (fail-Unread e k)
      | inr (page, k) ↦ inl (read-Loaded page e k)
    ]

  module _ (v : ℕ) (s : Memory) (h : AllSound read n s) (two : 2 ≤ n)
      (mapped : Memᴰ v (s.peer_map (s.id v)))
      (o : (s.peer_in_phys (s.id v) ≡ none) ⊎ (s.peer_in_phys (s.id v) ≡ some 0)) where
    module _ (f : Found read laws n s (get_free_physical_page (length s.clock_queue + 1) s)) where
      same_block : f.after.id v ≡ s.id v
      same_block = ap (λ g. g v) (f.steady.1)

      found-held :
          (s.peer_in_phys (s.id v) ≡ none) ⊎ (s.peer_in_phys (s.id v) ≡ some 0)
          → (f.after.peer_in_phys (f.after.id v) ≡ none)
            ⊎ (f.after.peer_in_phys (f.after.id v) ≡ some 0)
      found-held (inl e) = inl (ap f.after.peer_in_phys same_block ∙ f.steady.2 (s.id v) e)
      found-held (inr e) = inr (ap f.after.peer_in_phys same_block ∙ f.steady.3 (s.id v) e)

      found-mapped : Memᴰ v (f.after.peer_map (f.after.id v))
      found-mapped =
          subst (Memᴰ v) (sym (ap f.after.peer_map same_block ∙ ap (λ g. g (s.id v)) (f.steady.0)))
            mapped

      bring_in-eq : bring_in read v s ≡ set_physical_page read v f.after
      unfolding bring_in
      bring_in-eq = ap (λ x. and_then x (set_physical_page read v)) f.result

      found-steady : (s' : Memory) → SteadyBut (f.after.id v) f.after s' → SteadyBut (s.id v) s s'
      found-steady s' (a, b, c, d) = (
        a ∙ f.steady.0,
        b ∙ f.steady.1,
        λ i ne z. c i (λ e. ne (sym same_block ∙ e)) (f.steady.2 i z),
        λ i ne z. d i (λ e. ne (sym same_block ∙ e)) (f.steady.3 i z),
      )

      found-Loaded :
          Loaded v f.after (set_physical_page read v f.after) → Loaded v s (bring_in read v s)
      found-Loaded l = record {
        after = l.after;
        p = l.p;
        result = bring_in-eq ∙ l.result;
        pending = l.pending;
        kept = λ i pg e. l.kept i pg (f.kept i pg e);
        same_id = l.same_id ∙ f.steady.1;
        steady = found-steady l.after l.steady;
        not_zero = l.not_zero;
        closed = l.closed;
        saved = λ e. l.saved (ap f.after.peer_in_phys same_block ∙ f.steady.2 (s.id v) e);
      }

      found-no_data : content read f.after (f.after.id v) ≡ none → content read s (s.id v) ≡ none
      found-no_data e = elim (Option-cases (content read s (s.id v))) [
        | inl k ↦ k
        | inr (pg, k) ↦
            let c : Path (Option Page) none (some pg) =
              sym e ∙ ap (content read f.after) same_block ∙ f.kept (s.id v) pg k in
            cc
      ]

      found-Unread :
          Unread v f.after (set_physical_page read v f.after) → Unread v s (bring_in read v s)
      found-Unread u = record {
        after = u.after;
        result = bring_in-eq ∙ u.result;
        sound = u.sound;
        kept = λ i pg e. u.kept i pg (f.kept i pg e);
        no_data = found-no_data u.no_data;
        same_id = u.same_id ∙ f.steady.1;
        steady = found-steady u.after u.steady;
      }

      found-either : Loaded v s (bring_in read v s) ⊎ Unread v s (bring_in read v s)
      found-either =
          elim (set_physical_page-Loaded v f.first f.others f.after f.sound found-mapped f.available
            (found-held o)) [ inl l ↦ inl (found-Loaded l) | inr u ↦ inr (found-Unread u) ]

    -- With two pages of memory, a page comes into memory, or its file cannot be read.
    pub bring_in-Loaded : Loaded v s (bring_in read v s) ⊎ Unread v s (bring_in read v s)
    bring_in-Loaded = found-either (get_free_physical_page-Found read laws n s h two)
