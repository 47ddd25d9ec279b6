-- ===== src/Ip/Fragments/Moves.antt =====
-- What `memmove` leaves of the data of a packet.
use nstack.Base.{
  ℕ, ◌+◌, ◌≤◌, ◌≡◌, refl, sym, ap, ◌∙◌, arith, List, Bool, true, false, some, length-append, length,
  take, drop, if◌then◌else◌, length-take, length-drop,
}
use nstack.Ip.Fragments.{move_front}
use nstack.Base.{drop-append, take-append, drop-drop}

-- Moving a piece to the front keeps what has not been sent yet.
pub move_front-take :
    (buf : List ℕ) (offset plen : ℕ)
    → offset + plen ≤ length buf
    → take plen (move_front buf offset plen) ≡ take plen (drop offset buf)
unfolding move_front
move_front-take buf offset plen h =
    take-append (take plen (drop offset buf)) (drop plen buf) plen
      (omega (arith, length-take plen (drop offset buf), length-drop offset buf))

pub move_front-drop :
    (buf : List ℕ) (offset plen : ℕ)
    → offset + plen ≤ length buf
    → drop (offset + plen) (move_front buf offset plen) ≡ drop plen (drop offset buf)
unfolding move_front
move_front-drop buf offset plen h =
    let e : offset + plen ≡ plen + offset = omega arith in
    ap (λ n. drop n (move_front buf offset plen)) e
    ∙ drop-append (take plen (drop offset buf)) (drop plen buf) plen offset
        (omega (arith, length-take plen (drop offset buf), length-drop offset buf))
    ∙ drop-drop offset plen buf
    ∙ ap (λ n. drop n buf) (sym e)
    ∙ sym (drop-drop plen offset buf)

pub move_front-length :
    (buf : List ℕ) (offset plen : ℕ)
    → offset + plen ≤ length buf
    → length (move_front buf offset plen) ≡ length buf
unfolding move_front
move_front-length buf offset plen h = omega (
  arith,
  length-append (take plen (drop offset buf)) (drop plen buf),
  length-take plen (drop offset buf),
  length-drop offset buf,
  length-drop plen buf,
)

pub if_some :
    {A : Type 0} (b : Bool) (x y : A) → (if b then some x else some y) ≡ some (if b then x else y)
if_some true x y = refl
if_some false x y = refl
