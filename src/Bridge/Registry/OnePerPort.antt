-- ===== src/Bridge/Registry/OnePerPort.antt =====
-- At most four bridges run, and no port has two.
use omarchy_hardware.Common.{
  suc, ◌≤◌, leb, length, ◌≡◌, refl, Bool-cases, if-both, true, false, ◌&&◌, List, [], ◌∷◌, arith,
  inl, inr,
}
use omarchy_hardware.Common.Text.{Text, text_eq, text_eq_iff}
use omarchy_hardware.Common.Dict.{Dict, insert, remove}
use omarchy_hardware.Bridge.Registry.{
  max_bridges, Entry, active, takes_port, reserve, cancel, finish,
}

-- No two of the running bridges have one port.
abbrev pub IsDistinct : Dict Entry → Type 0
IsDistinct [] = Unit
IsDistinct ((id, e) ∷ bridges) =
    ((e.running && takes_port e.port (active bridges)) ≡ false) × IsDistinct bridges

abbrev pub IsRegistered : Dict Entry → Type 0
IsRegistered bridges = (length (active bridges) ≤ max_bridges) × IsDistinct bridges

-- An operation of the registry.
pub data Step : Type 0 where
  reserving : (id port : Text) → Step
  cancelling : (id : Text) → Step
  finishing : (id : Text) → Step

unfoldable pub step : Step → Dict Entry → Dict Entry
step (reserving id port) bridges = (reserve id port bridges).1
step (cancelling id) bridges = cancel id bridges
step (finishing id) bridges = finish id bridges

unfoldable pub steps : List Step → Dict Entry → Dict Entry
unfolding step
steps [] bridges = bridges
steps (s ∷ ss) bridges = steps ss (step s bridges)

remove-takes_port :
    (id port : Text) (bridges : Dict Entry)
    → takes_port port (active bridges) ≡ false
    → takes_port port (active (remove id bridges)) ≡ false
unfolding takes_port active remove
remove-takes_port id port [] h = h
remove-takes_port id port ((j, e) ∷ bridges) h = ground (arith, remove-takes_port id port bridges)

remove-length :
    (id : Text) (bridges : Dict Entry)
    → length (active (remove id bridges)) ≤ length (active bridges)
unfolding active remove
remove-length id [] = omega arith
remove-length id ((j, e) ∷ bridges) = ground (arith, remove-length id bridges)

remove-IsDistinct :
    (id : Text) (bridges : Dict Entry) → IsDistinct bridges → IsDistinct (remove id bridges)
unfolding remove
remove-IsDistinct id [] h = tt
remove-IsDistinct id ((j, e) ∷ bridges) (h, rest) =
    if-both IsDistinct (text_eq j id) (remove-IsDistinct id bridges rest)
      (ground (arith, remove-takes_port id e.port bridges), remove-IsDistinct id bridges rest)

finish-takes_port :
    (id port : Text) (bridges : Dict Entry)
    → takes_port port (active bridges) ≡ false
    → takes_port port (active (finish id bridges)) ≡ false
unfolding takes_port active finish
finish-takes_port id port [] h = h
finish-takes_port id port ((j, e) ∷ bridges) h = ground (arith, finish-takes_port id port bridges)

finish-length :
    (id : Text) (bridges : Dict Entry)
    → length (active (finish id bridges)) ≤ length (active bridges)
unfolding active finish
finish-length id [] = omega arith
finish-length id ((j, e) ∷ bridges) = ground (arith, finish-length id bridges)

finish-IsDistinct :
    (id : Text) (bridges : Dict Entry) → IsDistinct bridges → IsDistinct (finish id bridges)
unfolding finish
finish-IsDistinct id [] h = tt
finish-IsDistinct id ((j, e) ∷ bridges) (h, rest) =
    (ground (arith, finish-takes_port id e.port bridges), finish-IsDistinct id bridges rest)

-- What is active stays as it is when the finished are forgotten.
active-active : (bridges : Dict Entry) → active (active bridges) ≡ active bridges
unfolding active
active-active [] = refl
active-active ((j, e) ∷ bridges) = ground (arith, active-active bridges)

active-IsDistinct : (bridges : Dict Entry) → IsDistinct bridges → IsDistinct (active bridges)
unfolding active
active-IsDistinct [] h = tt
active-IsDistinct ((j, e) ∷ bridges) (h, rest) =
    if-both IsDistinct e.running
      (ground (arith, active-active bridges), active-IsDistinct bridges rest)
      (active-IsDistinct bridges rest)

abbrev starting : Text → Entry
starting port = record { port = port; running = true }

insert-takes_port :
    (id port other : Text) (bridges : Dict Entry)
    → text_eq port other ≡ false
    → takes_port other (active bridges) ≡ false
    → takes_port other (active (insert id (starting port) bridges)) ≡ false
unfolding takes_port active insert
insert-takes_port id port other [] differ h = ground (arith, differ)
insert-takes_port id port other ((j, e) ∷ bridges) differ h =
    ground (arith, differ, insert-takes_port id port other bridges differ)

insert-length :
    (id port : Text) (bridges : Dict Entry)
    → length (active (insert id (starting port) bridges)) ≤ suc (length (active bridges))
unfolding active insert
insert-length id port [] = omega arith
insert-length id port ((j, e) ∷ bridges) = ground (arith, insert-length id port bridges)

text_eq-sym : (s t : Text) → text_eq s t ≡ text_eq t s
text_eq-sym s t = ground (arith, text_eq_iff s t, text_eq_iff t s)

insert-IsDistinct :
    (id port : Text) (bridges : Dict Entry)
    → takes_port port (active bridges) ≡ false
    → IsDistinct bridges
    → IsDistinct (insert id (starting port) bridges)
unfolding insert takes_port active
insert-IsDistinct id port [] free h = (refl, tt)
insert-IsDistinct id port ((j, e) ∷ bridges) free (h, rest) =
    let later : takes_port port (active bridges) ≡ false = ground arith in
    if-both IsDistinct (text_eq j id) (ground (arith, later), rest)
      (
        ground (arith, text_eq-sym port e.port, insert-takes_port id port e.port bridges),
        insert-IsDistinct id port bridges later rest,
      )

reserve-IsRegistered :
    (id port : Text) (bridges : Dict Entry)
    → IsRegistered bridges
    → IsRegistered (reserve id port bridges).1
unfolding reserve
reserve-IsRegistered id port bridges h = elim (Bool-cases (takes_port port (active bridges))) [
  | inl taken ↦ rw taken h
  | inr free ↦
      let same = active-active bridges in
      elim (Bool-cases (leb max_bridges (length (active bridges)))) [
        | inl full ↦ rw (free, full) h
        | inr room ↦
            let longer = insert-length id port (active bridges) in
            rw (free, room)
              (
                ground (arith, room, rw same at longer),
                insert-IsDistinct id port (active bridges) (rw same free)
                    (active-IsDistinct bridges h.1),
              )
      ]
]

step-IsRegistered :
    (s : Step) (bridges : Dict Entry) → IsRegistered bridges → IsRegistered (step s bridges)
unfolding step cancel
step-IsRegistered (reserving id port) bridges h = reserve-IsRegistered id port bridges h
step-IsRegistered (cancelling id) bridges h =
    (omega (arith, h.0, remove-length id bridges), remove-IsDistinct id bridges h.1)
step-IsRegistered (finishing id) bridges h =
    (omega (arith, h.0, finish-length id bridges), finish-IsDistinct id bridges h.1)

-- If at most four bridges of a registry run and no two of them have one port, this is so after
-- any sequence of reservations, of reservations taken back, and of bridges whose thread ends.
pub steps-IsRegistered :
    (ss : List Step) (bridges : Dict Entry) → IsRegistered bridges → IsRegistered (steps ss bridges)
unfolding steps
steps-IsRegistered [] bridges h = h
steps-IsRegistered (s ∷ ss) bridges h =
    steps-IsRegistered ss (step s bridges) (step-IsRegistered s bridges h)
