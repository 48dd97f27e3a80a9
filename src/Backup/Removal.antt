-- ===== src/Backup/Removal.antt =====
-- internal/service/backup.go: `atomicRemove`, with its failures and a crash between its steps.
use nrcc.Base.{
  ◌≡◌, refl, String, Bool, true, false, ◌&&◌, Option, none, some, List, [], ◌∷◌, if◌then◌else◌,
  arith,
}

-- Whether a backup's file and its `.deleted` marker are in the directory.
pub record Slot : Type 0 where
  pub present : Bool
  pub marker : Bool

-- How far a run gets: it crashes before its first change of the directory or between the two, or ends
-- with what the system answers to the rename and to the unlink.
pub data Run : Type 0 where
  crashes_at_once : Run
  crashes_renamed : Run
  ends : Option String → Option String → Run

pub data Answer : Type 0 where
  done : Answer
  crashed : Answer
  failed : String → Answer

-- The unlink of the marker, where there is one.
unfoldable pub unlink : Option String → Slot → Slot × Answer
unlink (some e) s = (s, failed e)
unlink none s = (record s { marker = false }, done)

-- The rename, where there is no marker, and what comes after it.
unfoldable pub rename_and_unlink : Run → Slot → Slot × Answer
unfolding unlink
rename_and_unlink crashes_at_once s = (s, crashed)
rename_and_unlink crashes_renamed s =
    if s.present
    then (record s { present = false; marker = true }, crashed)
    else (s, failed "no such file")
rename_and_unlink (ends (some e) u) s = (s, failed e)
rename_and_unlink (ends none u) s =
    if s.present
    then unlink u (record s { present = false; marker = true })
    else (s, failed "no such file")

unfoldable pub unlink_marker : Run → Slot → Slot × Answer
unfolding unlink
unlink_marker (ends r u) s = unlink u s
unlink_marker _ s = (s, crashed)

-- `atomicRemove`
unfoldable pub atomic_remove : Run → Slot → Slot × Answer
unfolding rename_and_unlink unlink_marker
atomic_remove r s = if s.marker then unlink_marker r s else rename_and_unlink r s

unfoldable pub remove_all : List Run → Slot → Slot
unfolding atomic_remove
remove_all [] s = s
remove_all (r ∷ rs) s = remove_all rs (atomic_remove r s).0

abbrev both : Slot → Bool
both s = s.present && s.marker

slot : Bool → Bool → Slot
slot p m = record { present = p; marker = m }

-- A file and its marker are never both there after a run that did not start so.
one_of_both :
    (r : Run) (p m : Bool) → (p && m) ≡ false → both (atomic_remove r (slot p m)).0 ≡ false
unfolding atomic_remove rename_and_unlink unlink_marker unlink slot
one_of_both r true true h = cc
one_of_both crashes_at_once p m h = ground arith
one_of_both crashes_renamed p m h = ground arith
one_of_both (ends none none) p m h = ground arith
one_of_both (ends none (some e)) p m h = ground arith
one_of_both (ends (some e) none) p m h = ground arith
one_of_both (ends (some e) (some e')) p m h = ground arith

remove_all-both : (rs : List Run) (s : Slot) → both s ≡ false → both (remove_all rs s) ≡ false
unfolding remove_all slot
remove_all-both [] s h = h
remove_all-both (r ∷ rs) s h =
    remove_all-both rs (atomic_remove r s).0 (one_of_both r s.present s.marker h)

-- A run that the system lets through leaves neither.
cleans :
    (p m : Bool)
    → (p && m) ≡ false
    → (atomic_remove (ends none none) (slot p m)).0 ≡ slot false false
unfolding atomic_remove rename_and_unlink unlink_marker unlink slot
cleans true true h = cc
cleans true false h = refl
cleans false true h = refl
cleans false false h = refl

done_cleans :
    (r : Run) (p m : Bool)
    → (p && m) ≡ false
    → (atomic_remove r (slot p m)).1 ≡ done
    → (atomic_remove r (slot p m)).0 ≡ slot false false
unfolding atomic_remove rename_and_unlink unlink_marker unlink slot
done_cleans r true true h d = cc
done_cleans crashes_at_once true false h d = cc
done_cleans crashes_at_once false true h d = cc
done_cleans crashes_at_once false false h d = cc
done_cleans crashes_renamed true false h d = cc
done_cleans crashes_renamed false true h d = cc
done_cleans crashes_renamed false false h d = cc
done_cleans (ends none none) true false h d = refl
done_cleans (ends none none) false true h d = refl
done_cleans (ends none none) false false h d = cc
done_cleans (ends none (some e)) true false h d = cc
done_cleans (ends none (some e)) false true h d = cc
done_cleans (ends none (some e)) false false h d = cc
done_cleans (ends (some e) none) true false h d = cc
done_cleans (ends (some e) none) false true h d = refl
done_cleans (ends (some e) none) false false h d = cc
done_cleans (ends (some e) (some e')) true false h d = cc
done_cleans (ends (some e) (some e')) false true h d = cc
done_cleans (ends (some e) (some e')) false false h d = cc

-- However many removals of a backup failed or crashed, with no marker there before them: a removal after
-- them that reports success leaves neither the file nor its marker, and one whose rename and unlink the
-- system lets through leaves neither, whatever it reports.
pub atomic_remove_recovers :
    (rs : List Run) (r : Run) (s : Slot)
    → s.marker ≡ false
    → ((atomic_remove r (remove_all rs s)).1 ≡ done
        → (atomic_remove r (remove_all rs s)).0 ≡ record { present = false; marker = false })
      × ((atomic_remove (ends none none) (remove_all rs s)).0
          ≡ record { present = false; marker = false })
unfolding slot
atomic_remove_recovers rs r s h =
    let left = remove_all rs s in
    let apart = remove_all-both rs s (ground arith) in
    (done_cleans r left.present left.marker apart, cleans left.present left.marker apart)
