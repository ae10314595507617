-- ===== src/Events/Listening.antt =====
-- What becomes of the descriptors that the listener waits for.
use platform_external_drm_hw.Base.{
  Bool, false, Option, none, some, List, [], ◌∷◌, ◌≡◌, refl, arith, Option-cases, Bool-cases, subst,
  ◌&&◌, inl, inr,
}
use platform_external_drm_hw.Events.{
  FdSet, SelectAnswer, select_error, ready, ReadAnswer, select_loop, listen, listen_on, is_eintr,
}

abbrev IsDeaf : Option FdSet → Type 0
IsDeaf none = Unit
IsDeaf (some fds) = fds.socket ≡ false

select_loop-IsDeaf :
    (answers : List SelectAnswer) (fds : FdSet)
    → fds.socket ≡ false
    → IsDeaf (select_loop answers fds)
unfolding select_loop
select_loop-IsDeaf [] fds out = tt
select_loop-IsDeaf (ready device socket ∷ answers) fds out = ground (arith, out)
select_loop-IsDeaf (select_error e ∷ answers) fds out = elim (Bool-cases (is_eintr e)) [
  | inl again ↦ rw (again, select_loop) (select_loop-IsDeaf answers fds out)
  | inr failed ↦ rw (failed, select_loop) out
]

-- Without the socket in the set no run calls the hotplug handler, and none puts it back.
listen_on-deaf :
    (handler : Bool) (rounds : List (List SelectAnswer × List ReadAnswer)) (fds : FdSet)
    → fds.socket ≡ false
    → listen_on handler rounds fds ≡ 0
unfolding listen_on listen
listen_on-deaf handler [] fds out = refl
listen_on-deaf handler ((answers, reads) ∷ rounds) fds out =
    let deaf = select_loop-IsDeaf answers fds out in
    elim (Option-cases (select_loop answers fds)) [
      | inl waits ↦ rw (waits, listen_on, listen) refl
      | inr (fds', back) ↦
          let out' : fds'.socket ≡ false = subst IsDeaf back deaf in
          rw (back, listen_on, listen)
            (ground (arith, out', listen_on-deaf handler rounds fds' out'))
    ]

-- When select has come back for the device alone, the hotplug handler is never called again: whatever
-- messages come, and however select answers later, the socket is not waited for any more.
pub listen_on-never :
    (handler device : Bool) (reads : List ReadAnswer)
    (rounds : List (List SelectAnswer × List ReadAnswer)) (fds : FdSet)
    → listen_on handler ((ready device false ∷ [], reads) ∷ rounds) fds ≡ 0
unfolding listen_on listen select_loop
listen_on-never handler device reads rounds fds =
    let left : FdSet = record { device = fds.device && device; socket = fds.socket && false } in
    let out : left.socket ≡ false = ground arith in
    ground (arith, out, listen_on-deaf handler rounds left out)
