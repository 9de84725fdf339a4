-- ===== src/Pager/Sound/Fault.antt =====
-- What `vm_fault` does with the page it has found.
use eecs.Base.{
  Memᴰ, ℕ, ◌≤◌, ◌≡◌, ◌≢◌, refl, sym, ap, subst, ◌∙◌, ◌⊎◌, inl, inr, Bool, true, false, not, ◌||◌,
  List, Option, none, some, arith, ◌==◌, if◌then◌else◌, Option-cases,
}
use eecs.Pager.Files.{FileId}
use eecs.Pager.Memory.{Page, FileEvent, Memory}
use eecs.Pager.Faults.{
  Status, success, failure, is_some, check_residence, on_success, bring_in, fmap, mark_written,
  mark_used, let_write, write_fault, read_fault, fault_page,
}
use eecs.Pager.Tables.{put_self, ℕ-cases}
use eecs.Pager.Sound.{Files, content, Kept}
use eecs.Pager.Sound.Evict.{AllSound}
use eecs.Pager.Sound.Install.{Pending}
use eecs.Pager.Sound.Marks.{
  mark_written-Pending, mark_written-dirty, let_write-Pending, mark_used-Sound, mark_used-entry,
}
use eecs.Pager.Sound.Search.{SteadyBut}
use eecs.Pager.Sound.Load.{Loaded, bring_in-Loaded}

module _ (read : List FileEvent → FileId → Option Page) (n : ℕ) where
  -- The page can be read, and written if the fault was a write, where its data is.
  pub record Served (v : ℕ) (write_flag : Bool) (s after : Memory) : Type 0 where
    pub frame : ℕ
    pub resident : after.peer_in_phys (s.id v) ≡ some frame
    pub entry_there : (after.entry v).ppage ≡ frame
    pub read_enable : (after.entry v).read_enable ≡ true
    pub write_enable : write_flag ≡ true → (after.entry v).write_enable ≡ true

  -- A fault on page `v` ends. It succeeds, or the page has no data: its file cannot be read.
  pub record Faulted (v : ℕ) (write_flag : Bool) (s : Memory) (r : Option (Memory × Status))
      : Type 0 where
    pub after : Memory
    pub status : Status
    pub result : r ≡ some (after, status)
    pub sound : AllSound read n after
    pub kept : Kept read s after
    pub steady : SteadyBut (s.id v) s after
    pub outcome :
        ((status ≡ success) × Served v write_flag s after)
        ⊎ ((status ≡ failure) × (content read s (s.id v) ≡ none))

  -- Before `mark_used`.
  pub record Ready (v : ℕ) (write_flag : Bool) (s : Memory) (r : Option (Memory × Status))
      : Type 0 where
    pub after : Memory
    pub p : ℕ
    pub result : r ≡ some (after, success)
    pub pending : Pending read n v p after
    pub kept : Kept read s after
    pub same_id : after.id ≡ s.id
    pub steady : SteadyBut (s.id v) s after
    pub write_enable : write_flag ≡ true → (after.entry v).write_enable ≡ true
    pub written : (after.entry v).write_enable ≡ true → (after.physical_table p).dirty ≡ true
    pub saved :
        ((after.physical_table p).dirty ≡ true)
        ⊎ ((p ≡ 0) ⊎ (read after.log (after.id v) ≡ some (after.physmem p)))

  mark_used-Faulted :
      (v : ℕ) (write_flag : Bool) (s : Memory) (r : Option (Memory × Status))
      → Ready v write_flag s r
      → Faulted v write_flag s (fmap (on_success (mark_used v)) r)
  mark_used-Faulted v write_flag s r d = record {
    after = mark_used v d.after;
    status = success;
    result = ap (fmap (on_success (mark_used v))) d.result;
    sound = mark_used-Sound read n v d.p d.after d.pending d.written d.saved;
    kept = λ i pg e. unfold mark_used in d.kept i pg e;
    steady = unfold mark_used in d.steady;
    outcome = inl (
      refl,
      record {
        frame = d.p;
        resident =
            unfold mark_used in
            ap d.after.peer_in_phys (ap (λ g. g v) (sym d.same_id)) ∙ d.pending.resident;
        entry_there = ap (λ x. x.ppage) entry ∙ d.pending.entry_there;
        read_enable = ap (λ x. x.read_enable) entry;
        write_enable = λ w. ap (λ x. x.write_enable) entry ∙ d.write_enable w;
      },
    );
  }
    where
      entry : (mark_used v d.after).entry v ≡ record (d.after.entry v) { read_enable = true }
      entry = mark_used-entry read n v d.p d.after d.pending d.written d.saved

  mark_used-Unread :
      (v : ℕ) (write_flag : Bool) (s : Memory) (r : Option (Memory × Status))
      → (after : Memory) → r ≡ some (after, failure)
      → AllSound read n after
      → Kept read s after
      → SteadyBut (s.id v) s after
      → content read s (s.id v) ≡ none
      → Faulted v write_flag s (fmap (on_success (mark_used v)) r)
  mark_used-Unread v write_flag s r after e h k y c = record {
    after = after;
    status = failure;
    result = ap (fmap (on_success (mark_used v))) e;
    sound = h;
    kept = k;
    steady = y;
    outcome = inr (refl, c);
  }

  module _ (laws : Files read) (v : ℕ) (s : Memory) (h : AllSound read n s)
      (mapped : Memᴰ v (s.peer_map (s.id v))) where
    -- A page in memory.
    module _ (q : ℕ) (there : s.peer_in_phys (s.id v) ≡ some q) where
      at_q : (s.entry v).ppage ≡ q
      at_q = h.linked (s.id v) v q (λ z. z) mapped there

      resident-Pending : Pending read n v q s
      resident-Pending = record {
        sound = record {
          small = h.small;
          frames = h.frames;
          holds = h.holds;
          back = h.back;
          member = h.member;
          linked = λ i w p o m e. h.linked i w p (λ z. z) m e;
          readable = λ i w o m e. h.readable i w (λ z. z) m e;
          writable = λ i w o m e. h.writable i w (λ z. z) m e;
          clean = λ p o k d. h.clean p (λ z. z) k d;
          accessible = h.accessible;
          stored = h.stored;
          zero_page = h.zero_page;
          zero_swap = h.zero_swap;
          zero_clean = h.zero_clean;
        };
        resident = there;
        entry_there = at_q;
        mapped = mapped;
      }

      resident_written : (s.entry v).write_enable ≡ true → (s.physical_table q).dirty ≡ true
      resident_written w =
          let r = h.writable (s.id v) v (λ z. z) mapped w in
          let k : Path (Option ℕ) (some r.0) (some q) = sym r.1 ∙ there in
          let k' : r.0 ≡ q = cc in subst (λ x. (s.physical_table x).dirty ≡ true) k' r.2

      resident_saved :
          (s.physical_table q).dirty ≡ false → (q ≡ 0) ⊎ (read s.log (s.id v) ≡ some (s.physmem q))
      resident_saved d = elim (h.back (s.id v) q there) [
        | inl z ↦ inl z
        | inr b ↦ inr (ap (read s.log) (sym b.1) ∙ h.clean q (λ z. z) b.0 d)
      ]

      resident-write : q ≢ 0 → Ready v true s (some (mark_written v s, success))
      resident-write ne = record {
        after = mark_written v s;
        p = q;
        result = refl;
        pending = mark_written-Pending read n v q s resident-Pending ne;
        kept = λ i pg e. unfold mark_written in e;
        same_id = unfold mark_written in refl;
        steady = unfold mark_written in (refl, refl, λ i ne z. z, λ i ne z. z);
        write_enable = λ w. unfold mark_written in ap (λ x. x.write_enable) (put_self s.entry v _);
        written = λ w. mark_written-dirty read n v q s resident-Pending;
        saved = inl (mark_written-dirty read n v q s resident-Pending);
      }

      resident-dirty :
          (s.physical_table q).dirty ≡ true → Ready v false s (some (let_write v s, success))
      resident-dirty d = record {
        after = let_write v s;
        p = q;
        result = refl;
        pending = let_write-Pending read n v q s resident-Pending;
        kept = λ i pg e. unfold let_write in e;
        same_id = unfold let_write in refl;
        steady = unfold let_write in (refl, refl, λ i ne z. z, λ i ne z. z);
        write_enable = λ w. cc;
        written = λ w. unfold let_write in d;
        saved = inl (unfold let_write in d);
      }

      resident-clean : (s.physical_table q).dirty ≡ false → Ready v false s (some (s, success))
      resident-clean d = record {
        after = s;
        p = q;
        result = refl;
        pending = resident-Pending;
        kept = λ i pg e. e;
        same_id = refl;
        steady = (refl, refl, λ i ne z. z, λ i ne z. z);
        write_enable = λ w. cc;
        written = resident_written;
        saved = inr (resident_saved d);
      }

    Ready-write :
        (r : Option (Memory × Status))
        → Loaded read laws n v s r
        → Ready v true s (fmap (on_success (mark_written v)) r)
    Ready-write r l = record {
      after = mark_written v l.after;
      p = l.p;
      result = ap (fmap (on_success (mark_written v))) l.result;
      pending = mark_written-Pending read n v l.p l.after l.pending l.not_zero;
      kept = λ i pg e. unfold mark_written in l.kept i pg e;
      same_id = unfold mark_written in l.same_id;
      steady = unfold mark_written in l.steady;
      write_enable =
          λ w. unfold mark_written in ap (λ x. x.write_enable) (put_self l.after.entry v _);
      written = λ w. mark_written-dirty read n v l.p l.after l.pending;
      saved = inl (mark_written-dirty read n v l.p l.after l.pending);
    }

    Ready-read :
        (r : Option (Memory × Status))
        → s.peer_in_phys (s.id v) ≡ none
        → Loaded read laws n v s r
        → Ready v false s r
    Ready-read r e l = record {
      after = l.after;
      p = l.p;
      result = l.result;
      pending = l.pending;
      kept = l.kept;
      same_id = l.same_id;
      steady = l.steady;
      write_enable = λ w. cc;
      written = λ w. absurd (l.closed w);
      saved = inr (inr (l.saved e));
    }

    write_fault-if :
        (b : Bool)
        → (not (check_residence v s) || (s.entry v).ppage == 0) ≡ b
        → write_fault read v s ≡ (
            if b
            then fmap (on_success (mark_written v)) (bring_in read v s)
            else some (mark_written v s, success))
    unfolding write_fault
    write_fault-if b c =
        ap
          (λ x.
            if x
            then fmap (on_success (mark_written v)) (bring_in read v s)
            else some (mark_written v s, success))
          c

    read_fault-if :
        (o : Option ℕ)
        → s.peer_in_phys (s.id v) ≡ o
        → read_fault read v s ≡ (
            if not (is_some o)
            then bring_in read v s
            else some (
              if (s.physical_table ((s.entry v).ppage)).dirty then let_write v s else s,
              success,
            ))
    unfolding read_fault check_residence
    read_fault-if o c =
        ap
          (λ x.
            if not (is_some x)
            then bring_in read v s
            else some (
              if (s.physical_table ((s.entry v).ppage)).dirty then let_write v s else s,
              success,
            ))
          c

    missing-if :
        s.peer_in_phys (s.id v) ≡ none
        → (not (check_residence v s) || (s.entry v).ppage == 0) ≡ true
    unfolding check_residence
    missing-if e = ap (λ o. not (is_some o) || (s.entry v).ppage == 0) e

    present-if :
        (q : ℕ)
        → s.peer_in_phys (s.id v) ≡ some q
        → (not (check_residence v s) || (s.entry v).ppage == 0) ≡ (q == 0)
    unfolding check_residence
    present-if q e =
        ap (λ o. not (is_some o) || (s.entry v).ppage == 0) e ∙ ap (λ x. x == 0) (at_q q e)

    module _ (two : 2 ≤ n) where
      brought-write :
          (s.peer_in_phys (s.id v) ≡ none) ⊎ (s.peer_in_phys (s.id v) ≡ some 0)
          → (not (check_residence v s) || (s.entry v).ppage == 0) ≡ true
          → Faulted v true s (fmap (on_success (mark_used v)) (write_fault read v s))
      brought-write o c =
          subst (λ r. Faulted v true s (fmap (on_success (mark_used v)) r))
            (sym (write_fault-if true c))
            (elim (bring_in-Loaded read laws n v s h two mapped o) [
              | inl l ↦ mark_used-Faulted v true s _ (Ready-write (bring_in read v s) l)
              | inr u ↦
                  mark_used-Unread v true s (fmap (on_success (mark_written v)) (bring_in read v s))
                    u.after (ap (fmap (on_success (mark_written v))) u.result) u.sound u.kept
                    u.steady u.no_data
            ])

      brought-read :
          s.peer_in_phys (s.id v) ≡ none
          → Faulted v false s (fmap (on_success (mark_used v)) (read_fault read v s))
      brought-read e =
          subst (λ r. Faulted v false s (fmap (on_success (mark_used v)) r))
            (sym (read_fault-if none e))
            (elim (bring_in-Loaded read laws n v s h two mapped (inl e)) [
              | inl l ↦ mark_used-Faulted v false s _ (Ready-read (bring_in read v s) e l)
              | inr u ↦
                  mark_used-Unread v false s (bring_in read v s) u.after u.result u.sound u.kept
                    u.steady u.no_data
            ])

      present-write :
          (q : ℕ)
          → s.peer_in_phys (s.id v) ≡ some q
          → (q ≡ 0) ⊎ (q ≢ 0)
          → Faulted v true s (fmap (on_success (mark_used v)) (write_fault read v s))
      present-write q e (inl z) =
          brought-write (inr (e ∙ ap some z)) (present-if q e ∙ ap (λ x. x == 0) z)
      present-write q e (inr ne) =
          let k : (q == 0) ≡ false = ground (arith, ne) in
          subst (λ r. Faulted v true s (fmap (on_success (mark_used v)) r))
            (sym (write_fault-if false (present-if q e ∙ k)))
            (mark_used-Faulted v true s _ (resident-write q e ne))

      write_fault-Faulted :
          Faulted v true s (fmap (on_success (mark_used v)) (write_fault read v s))
      write_fault-Faulted = elim (Option-cases (s.peer_in_phys (s.id v))) [
        | inl e ↦ brought-write (inl e) (missing-if e)
        | inr (q, e) ↦ present-write q e (ℕ-cases q 0)
      ]

      present-read :
          (q : ℕ) (b : Bool)
          → s.peer_in_phys (s.id v) ≡ some q
          → (s.physical_table q).dirty ≡ b
          → Ready v false s (some (if b then let_write v s else s, success))
      present-read q true e d = resident-dirty q e d
      present-read q false e d = resident-clean q e d

      read_fault-Faulted : Faulted v false s (fmap (on_success (mark_used v)) (read_fault read v s))
      read_fault-Faulted = elim (Option-cases (s.peer_in_phys (s.id v))) [
        | inl e ↦ brought-read e
        | inr (q, e) ↦
            subst (λ r. Faulted v false s (fmap (on_success (mark_used v)) r))
              (sym (
                read_fault-if (some q) e
                ∙ ap (λ x. some (if (s.physical_table x).dirty then let_write v s else s, success))
                    (at_q q e)))
              (mark_used-Faulted v false s _ (present-read q ((s.physical_table q).dirty) e refl))
      ]

      -- On sound memory of at least two pages, of 2^32 bytes together at most, and with files that behave as
      -- vm_pager.h says, the handling of a fault on a mapped page ends. It keeps the memory sound and loses no
      -- data, in memory or in a file; it succeeds, and then the entry of the page leads to the physical page
      -- with its data and allows what was refused, or it fails, and then the data can be read nowhere.
      pub fault_page-Faulted :
          (write_flag : Bool) → Faulted v write_flag s (fault_page read v write_flag s)
      unfolding fault_page
      fault_page-Faulted true = write_fault-Faulted
      fault_page-Faulted false = read_fault-Faulted
