-- ===== src/Util/Broadcaster/Laws.antt =====
-- What a listener receives.
use amp_cucumber_cpp_runner.Prelude.{
  ℕ, ◌≡◌, refl, sym, ap, ◌∙◌, true, false, List, [], ◌∷◌, ◌++◌, append_assoc, append-nil, ◌==◌,
  if◌then◌else◌, arith, Bool-cases, inl, inr, All, All-append, ◌⊎◌,
}
use amp_cucumber_cpp_runner.Messages.{Envelope}
use amp_cucumber_cpp_runner.Util.Broadcaster.{
  Listener, Broadcaster, Event, sent, added, removed, erase_listener, invoke, invoke_all,
  add_listener, remove_listener, broadcast_event, happen, happen_all,
}

-- What a listener's function has been called with, in order.
abbrev pub received : ℕ → List (ℕ × Envelope) → List Envelope
received address [] = []
received address ((a, e) ∷ calls) =
    if a == address then e ∷ received address calls else received address calls

-- No listener of the list has that address.
abbrev pub IsAbsent : ℕ → List Listener → Type 0
IsAbsent address = All (λ l. (l.address == address) ≡ false)

received-append :
    (address : ℕ) (xs ys : List (ℕ × Envelope))
    → received address (xs ++ ys) ≡ received address xs ++ received address ys
received-append address [] ys = refl
received-append address ((a, e) ∷ xs) ys = elim (Bool-cases (a == address)) [
  | inl same ↦ rw same (ap (λ r. e ∷ r) (received-append address xs ys))
  | inr other ↦ rw other (received-append address xs ys)
]

received-invoke_absent :
    (address : ℕ) (e : Envelope) (l : Listener) (calls : List (ℕ × Envelope))
    → (l.address == address) ≡ false
    → received address (invoke e l calls) ≡ received address calls
received-invoke_absent address e l calls h = elim (Bool-cases l.on_event) [
  | inl on ↦ rw on (received-append address calls _ ∙ rw h (append-nil _))
  | inr off ↦ rw off refl
]

received-invoke_all_absent :
    (address : ℕ) (e : Envelope) (ls : List Listener) (calls : List (ℕ × Envelope))
    → IsAbsent address ls
    → received address (invoke_all e ls calls) ≡ received address calls
unfolding invoke_all
received-invoke_all_absent address e [] calls h = refl
received-invoke_all_absent address e (l ∷ ls) calls (h, hs) =
    received-invoke_all_absent address e ls (invoke e l calls) hs
    ∙ received-invoke_absent address e l calls h

same : (n : ℕ) → (n == n) ≡ true
same n = ground arith

-- One listener of the list has that address, and its function is not empty.
abbrev IsOnce : ℕ → List Listener → Type 0
IsOnce address [] = ⊥
IsOnce address (l ∷ ls) =
    (((l.address == address) ≡ true) × (l.on_event ≡ true) × IsAbsent address ls)
    ⊎ (((l.address == address) ≡ false) × IsOnce address ls)

-- Events that leave the listener at that address alone: others come and go.
abbrev IsOther : ℕ → Event → Type 0
IsOther address (sent e) = Unit
IsOther address (added l) = (l.address == address) ≡ false
IsOther address (removed other) = (other == address) ≡ false

abbrev pub AreOther : ℕ → List Event → Type 0
AreOther address = All (IsOther address)

abbrev pub broadcasts : List Event → List Envelope
broadcasts [] = []
broadcasts (sent e ∷ events) = e ∷ broadcasts events
broadcasts (_ ∷ events) = broadcasts events

received-invoke_own :
    (address : ℕ) (e : Envelope) (l : Listener) (calls : List (ℕ × Envelope))
    → (l.address == address) ≡ true
    → l.on_event ≡ true
    → received address (invoke e l calls) ≡ received address calls ++ (e ∷ [])
received-invoke_own address e l calls own on =
    rw on (received-append address calls ((l.address, e) ∷ []) ∙ rw own refl)

received-invoke_all :
    (address : ℕ) (e : Envelope) (ls : List Listener) (calls : List (ℕ × Envelope))
    → IsOnce address ls
    → received address (invoke_all e ls calls) ≡ received address calls ++ (e ∷ [])
unfolding invoke_all
received-invoke_all address e [] calls h = absurd h
received-invoke_all address e (l ∷ ls) calls (inl (own, on, absent)) =
    received-invoke_all_absent address e ls (invoke e l calls) absent
    ∙ received-invoke_own address e l calls own on
received-invoke_all address e (l ∷ ls) calls (inr (other, once)) =
    received-invoke_all address e ls (invoke e l calls) once
    ∙ ap (λ r. r ++ (e ∷ [])) (received-invoke_absent address e l calls other)

IsOnce-last :
    (address : ℕ) (ls : List Listener)
    → IsAbsent address ls
    → IsOnce address (ls ++ (record { address = address; on_event = true } ∷ []))
IsOnce-last address [] h = inl (same address, refl, tt)
IsOnce-last address (l ∷ ls) (h, hs) = inr (h, IsOnce-last address ls hs)

IsOnce-added :
    (address : ℕ) (ls : List Listener) (l : Listener)
    → (l.address == address) ≡ false
    → IsOnce address ls
    → IsOnce address (ls ++ (l ∷ []))
IsOnce-added address [] l h once = absurd once
IsOnce-added address (k ∷ ls) l h (inl (own, on, absent)) =
    inl (own, on, All-append _ ls (l ∷ []) absent (h, tt))
IsOnce-added address (k ∷ ls) l h (inr (other, once)) =
    inr (other, IsOnce-added address ls l h once)

IsAbsent-erase_listener :
    (address gone : ℕ) (ls : List Listener)
    → IsAbsent address ls
    → IsAbsent address (erase_listener gone ls)
unfolding erase_listener
IsAbsent-erase_listener address gone [] h = tt
IsAbsent-erase_listener address gone (l ∷ ls) (h, hs) = elim (Bool-cases (l.address == gone)) [
  | inl erased ↦ rw erased (IsAbsent-erase_listener address gone ls hs)
  | inr stays ↦ rw stays (h, IsAbsent-erase_listener address gone ls hs)
]

own_stays :
    (a address gone : ℕ) → (a == address) ≡ true → (gone == address) ≡ false → (a == gone) ≡ false
own_stays a address gone own other = ground (arith, own, other)

IsOnce-erase_listener :
    (address gone : ℕ) (ls : List Listener)
    → (gone == address) ≡ false
    → IsOnce address ls
    → IsOnce address (erase_listener gone ls)
unfolding erase_listener
IsOnce-erase_listener address gone [] h once = once
IsOnce-erase_listener address gone (l ∷ ls) h (inl (own, on, absent)) =
    rw (own_stays l.address address gone own h)
      (inl (own, on, IsAbsent-erase_listener address gone ls absent))
IsOnce-erase_listener address gone (l ∷ ls) h (inr (other, once)) =
    elim (Bool-cases (l.address == gone)) [
      | inl erased ↦ rw erased (IsOnce-erase_listener address gone ls h once)
      | inr stays ↦ rw stays (inr (other, IsOnce-erase_listener address gone ls h once))
    ]

-- What the listener receives while it is registered, and that it stays so
received-happen_all :
    (address : ℕ) (events : List Event) (b : Broadcaster)
    → AreOther address events
    → IsOnce address b.listeners
    → (received address (happen_all events b).calls ≡ received address b.calls ++ broadcasts events)
unfolding happen_all happen broadcast_event add_listener remove_listener
received-happen_all address [] b h once = sym (append-nil _)
received-happen_all address (sent e ∷ events) b (h, hs) once =
    received-happen_all address events (broadcast_event e b) hs once
    ∙ ap (λ r. r ++ broadcasts events) (received-invoke_all address e b.listeners b.calls once)
    ∙ append_assoc (received address b.calls) (e ∷ []) (broadcasts events)
received-happen_all address (added l ∷ events) b (h, hs) once =
    received-happen_all address events (add_listener l b) hs
      (IsOnce-added address b.listeners l h once)
received-happen_all address (removed gone ∷ events) b (h, hs) once =
    received-happen_all address events (remove_listener gone b) hs
      (IsOnce-erase_listener address gone b.listeners h once)

received-happen_all_absent :
    (address : ℕ) (events : List Event) (b : Broadcaster)
    → AreOther address events
    → IsAbsent address b.listeners
    → received address (happen_all events b).calls ≡ received address b.calls
unfolding happen_all happen broadcast_event add_listener remove_listener
received-happen_all_absent address [] b h absent = refl
received-happen_all_absent address (sent e ∷ events) b (h, hs) absent =
    received-happen_all_absent address events (broadcast_event e b) hs absent
    ∙ received-invoke_all_absent address e b.listeners b.calls absent
received-happen_all_absent address (added l ∷ events) b (h, hs) absent =
    received-happen_all_absent address events (add_listener l b) hs
      (All-append _ b.listeners (l ∷ []) absent (h, tt))
received-happen_all_absent address (removed gone ∷ events) b (h, hs) absent =
    received-happen_all_absent address events (remove_listener gone b) hs
      (IsAbsent-erase_listener address gone b.listeners absent)

erase_listener-IsAbsent :
    (address : ℕ) (ls : List Listener) → IsAbsent address (erase_listener address ls)
unfolding erase_listener
erase_listener-IsAbsent address [] = tt
erase_listener-IsAbsent address (l ∷ ls) = elim (Bool-cases (l.address == address)) [
  | inl equal ↦ rw equal (erase_listener-IsAbsent address ls)
  | inr other ↦ rw other (other, erase_listener-IsAbsent address ls)
]

-- From its construction to its destruction a listener with a function, at an address where no other
-- listener is registered, is called with every envelope that is broadcast meanwhile, once and in
-- order, whichever other listeners come and go; and with none that is broadcast after its
-- destruction, while no other comes to its address.
pub received_of_lifetime :
    (address : ℕ) (life later : List Event) (b : Broadcaster)
    → IsAbsent address b.listeners
    → AreOther address life
    → AreOther address later
    → received address
        (happen_all later (
          remove_listener address (
            happen_all life
              (add_listener (record { address = address; on_event = true }) b)))).calls
      ≡ received address b.calls ++ broadcasts life
unfolding remove_listener add_listener
received_of_lifetime address life later b absent others more =
    received-happen_all_absent address later _ more (erase_listener-IsAbsent address _)
    ∙ received-happen_all address life _ others (IsOnce-last address b.listeners absent)
