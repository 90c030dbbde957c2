-- ===== src/SxeList/Tests.antt =====
-- A list at address 100 with id 7, whose nodes stand 8 bytes into the objects at 200 and 300.
use libsxe.Base.{refl, [], ◌∷◌, arith}
use libsxe.SxeList.{Memory, SxeList, Walker, construct, push, remove}
use libsxe.SxeList.Links.{Holds}
use libsxe.SxeList.Insert.{construct-Holds, push-Holds}
use libsxe.SxeList.Remove.Ends.{Removes, remove-Holds}

abbrev blank : Memory
blank p = record { next = 0; prev = 0; id = 0 }

abbrev none_yet : Memory × SxeList
none_yet = construct blank 100 7 8

abbrev one : Memory × SxeList
one = push none_yet.0 none_yet.1 200

abbrev two : Memory × SxeList
two = push one.0 one.1 300

none_yet-Holds : Holds none_yet.0 none_yet.1 []
none_yet-Holds = construct-Holds blank 100 7 8 (omega arith) (omega arith) (omega arith)

one-Holds : Holds one.0 one.1 (208 ∷ [])
unfolding construct
one-Holds =
    push-Holds none_yet.0 none_yet.1 200 [] none_yet-Holds (omega arith) (omega arith) (omega arith)

two-Holds : Holds two.0 two.1 (208 ∷ 308 ∷ [])
unfolding construct push
two-Holds =
    push-Holds one.0 one.1 300 (208 ∷ []) one-Holds (omega arith) (omega arith) (omega arith)

construct-Holds_example : Holds none_yet.0 none_yet.1 []
construct-Holds_example = construct-Holds blank 100 7 8 (omega arith) (omega arith) (omega arith)

remove-Holds_example : Removes two.0 two.1 (308 ∷ []) 200 (remove two.0 two.1 200)
unfolding construct push
remove-Holds_example = remove-Holds two.0 two.1 [] 208 (308 ∷ []) 200 two-Holds refl

push-Holds_example : Holds two.0 two.1 (208 ∷ 308 ∷ [])
unfolding construct push
push-Holds_example =
    push-Holds one.0 one.1 300 (208 ∷ []) one-Holds (omega arith) (omega arith) (omega arith)

abbrev at_first : Walker
at_first = record { back = 100; node = 208 }
