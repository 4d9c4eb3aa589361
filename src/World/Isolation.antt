-- ===== src/World/Isolation.antt =====
-- What an operation may do to the contexts: change the innermost one, or none.
use amp_cucumber_cpp_runner.Prelude.{◌≡◌, refl, ◌∙◌}
use amp_cucumber_cpp_runner.Messages.{Envelope}
use amp_cucumber_cpp_runner.Context.{enter}
use amp_cucumber_cpp_runner.Context.Laws.{
  parent_of, parent_of-assign, parent_of-erase, leave-parent_of,
}
use amp_cucumber_cpp_runner.Platform.{Platform}
use amp_cucumber_cpp_runner.World.{World, M, broadcast, next_id, with_context}
use amp_cucumber_cpp_runner.World.Keeps.{IsPreorder, Keeps}
use amp_cucumber_cpp_runner.Util.Body.Laws.{AllowsBodies}

module _ {P : Platform} where
  -- The contexts round the innermost one are the same.
  abbrev pub SameParent : World P → World P → Type 0
  SameParent w v = parent_of v.context ≡ parent_of w.context

  abbrev pub SameContext : World P → World P → Type 0
  SameContext w v = v.context ≡ w.context

  pub SameParent-IsPreorder : IsPreorder SameParent
  SameParent-IsPreorder = record { same = λ w. refl; trans = λ u v w p q. q ∙ p }

  pub SameContext-IsPreorder : IsPreorder SameContext
  SameContext-IsPreorder = record { same = λ w. refl; trans = λ u v w p q. q ∙ p }

  pub SameParent-AllowsBodies : AllowsBodies SameParent
  unfolding broadcast
  SameParent-AllowsBodies = record {
    attaching = λ a w. refl;
    assigning = λ key v w. parent_of-assign key v w.context;
    erasing = λ key w. parent_of-erase key w.context;
    telling = λ u w. refl;
    measuring = λ w. refl;
  }

  pub broadcast-SameContext : (e : Envelope) → Keeps SameContext (broadcast {P = P} e)
  unfolding broadcast
  broadcast-SameContext e = record { from = λ w. refl }

  pub next_id-SameContext : Keeps SameContext (next_id {P = P})
  unfolding next_id
  next_id-SameContext = record { from = λ w. refl }

  pub broadcast-SameParent : (e : Envelope) → Keeps SameParent (broadcast {P = P} e)
  unfolding broadcast
  broadcast-SameParent e = record { from = λ w. refl }

  pub next_id-SameParent : Keeps SameParent (next_id {P = P})
  unfolding next_id
  next_id-SameParent = record { from = λ w. refl }

  -- In a context of its own an operation may change that one, and nothing of it stays.
  pub with_context-SameContext :
      {A : Type 0} (m : M P A) → Keeps SameParent m → Keeps SameContext (with_context m)
  unfolding with_context
  with_context-SameContext m h = record {
    from = λ w. leave-parent_of _ w.context (h.from (record w { context = enter w.context }));
  }

  pub SameContext→SameParent : {A : Type 0} (m : M P A) → Keeps SameContext m → Keeps SameParent m
  SameContext→SameParent m h = record { from = λ w. rw (h.from w) }
