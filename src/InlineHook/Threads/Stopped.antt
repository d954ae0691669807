-- ===== src/InlineHook/Threads/Stopped.antt =====
-- Where `freeze` of inlineHook.c moves a thread that stands at either of the two instructions that
-- are copied in Arm mode.
use unity_game_localization.Prelude.{
  ℕ, zero, suc, ◌+◌, ◌^◌, ◌<◌, ◌≡◌, ◌≢◌, ◌⊎◌, inl, inr, refl, sym, subst, ap, ◌∙◌, Bool, true, List,
  [], ◌∷◌, map, none, some, arith, if◌then◌else◌, get_elem?,
}
use unity_game_localization.Relocate.Boundaries.{orig_boundary, trampoline_boundary}
use unity_game_localization.Relocate.Arm.Marks.{IsMarked}
use unity_game_localization.InlineHook.World.{Item, Info, Thread, World, clear_bit0}
use unity_game_localization.InlineHook.Threads.{
  enable, freeze, first_move, process_thread_pc, do_process_thread_pc,
}
use unity_game_localization.InlineHook.Threads.Moved.{
  AreDistinct, do_process_thread_pc-boundaries, do_process_thread_pc-elsewhere,
}

get_elem?-map :
    (g : Thread → Thread) (ts : List Thread) (m : ℕ) (t : Thread)
    → get_elem? ts m ≡ some t
    → get_elem? (map g ts) m ≡ some (g t)
get_elem?-map g [] m t h = absurd (cc h)
get_elem?-map g (t' ∷ ts) zero t h = let e : t' ≡ t = cc h in ap (λ u. some (g u)) e
get_elem?-map g (t' ∷ ts) (suc m) t h = get_elem?-map g ts m t h

-- A thread that can be stopped is moved as the item says.
pub freeze-thread :
    (forks : Bool) (item : Item) (v : World) (k : ℕ) (t : Thread)
    → forks ≡ true
    → t.attaches ≡ true
    → get_elem? v.threads k ≡ some t
    → get_elem? (freeze forks (some item) enable v).threads k
      ≡ some (record t { pc = process_thread_pc v.info (some item) enable t.pc })
unfolding freeze
freeze-thread forks item v k t forked attaches h = rw forked (
    get_elem?-map _ v.threads k t h
    ∙ ap some (
        let moved : Thread = record t { pc = process_thread_pc v.info (some item) enable t.pc } in
        let e : (if t.attaches then moved else t) ≡ moved = rw attaches refl in e))

-- Where the item moves a thread.
module _ (func page size : ℕ) (x : Item) (target : clear_bit0 x.target_addr ≡ func)
    (starts : x.trampoline_instructions ≡ page) (marks : IsMarked size x.boundaries)
    (low : (func + 16 < 2 ^ 32) × (page + size < 2 ^ 32)) (some_words : 0 < size) where
  abbrev original : ℕ → ℕ
  original = orig_boundary x.boundaries

  abbrev moved : ℕ → ℕ
  moved = trampoline_boundary x.boundaries

  both_apart :
      (boundary : ℕ → ℕ) → boundary 0 ≢ boundary 1 → AreDistinct boundary x.boundaries.count
  both_apart boundary ne zero zero l m e = refl
  both_apart boundary ne zero (suc zero) l m e = absurd (ne e)
  both_apart boundary ne (suc zero) zero l m e = absurd (ne (sym e))
  both_apart boundary ne (suc zero) (suc zero) l m e = refl
  both_apart boundary ne (suc (suc i)) j l m e = absurd (omega (arith, marks.two))
  both_apart boundary ne i (suc (suc j)) l m e = absurd (omega (arith, marks.two))

  moves :
      (i pc pc' : ℕ)
      → i < 2
      → func + original i ≡ pc
      → page + moved i ≡ pc'
      → pc < 2 ^ 32
      → pc' < 2 ^ 32
      → do_process_thread_pc x pc enable ≡ some pc'
  moves i pc pc' l e e' h h' =
      let from : clear_bit0 x.target_addr + original i ≡ pc = omega (arith, target, e) in
      let to : x.trampoline_instructions + moved i ≡ pc' = omega (arith, starts, e') in
      let there =
        (do_process_thread_pc-boundaries x i (omega (arith, marks.two))
          (both_apart original (omega (arith, marks.first, marks.second)))
          (both_apart moved (omega (arith, marks.first_moved, marks.second_moved)))
          (omega (arith, from)) (omega (arith, to))).0 in
      subst (λ a. do_process_thread_pc x a enable ≡ some pc') from (there ∙ ap some to)

  pub moves_first : do_process_thread_pc x func enable ≡ some page
  moves_first =
      moves 0 func page (omega arith) (omega (arith, marks.first))
        (omega (arith, marks.first_moved)) (omega arith) (omega arith)

  pub moves_second : do_process_thread_pc x (func + 4) enable ≡ some (page + size)
  moves_second =
      moves 1 (func + 4) (page + size) (omega arith) (omega (arith, marks.second))
        (omega (arith, marks.second_moved)) (omega arith) (omega arith)

  boundary_cases : (i : ℕ) → i < x.boundaries.count → (original i ≡ 0) ⊎ (original i ≡ 4)
  boundary_cases zero l = inl marks.first
  boundary_cases (suc zero) l = inr marks.second
  boundary_cases (suc (suc i)) l = absurd (omega (arith, marks.two))

  pub stays :
      (pc : ℕ) → pc < 2 ^ 32 → pc ≢ func → pc ≢ func + 4 → do_process_thread_pc x pc enable ≡ none
  stays pc l n n' =
      do_process_thread_pc-elsewhere x pc l (omega (arith, target))
        (λ i m. elim (boundary_cases i m) [ inl e ↦ omega (arith, e) | inr e ↦ omega (arith, e) ])
        (λ i m. elim (boundary_cases i m) [
          | inl e ↦ λ q. n (omega (arith, e, q, target))
          | inr e ↦ λ q. n' (omega (arith, e, q, target))
        ])

-- Where the item's part of `processThreadPC` leads.
pub moved_pc-some :
    (info : Info) (x : Item) (pc pc' : ℕ)
    → do_process_thread_pc x pc enable ≡ some pc'
    → process_thread_pc info (some x) enable pc ≡ pc'
unfolding process_thread_pc
moved_pc-some info x pc pc' e = rw (e, first_move) refl

pub moved_pc-none :
    (info : Info) (x : Item) (pc : ℕ)
    → do_process_thread_pc x pc enable ≡ none
    → process_thread_pc info (some x) enable pc ≡ pc
unfolding process_thread_pc
moved_pc-none info x pc e = rw (e, first_move) refl
