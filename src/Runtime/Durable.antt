-- ===== src/Runtime/Durable.antt =====
-- What a history of calls has made durable: the persistence manager writes what was added, updated and
-- removed since it last did so.
use t3api.Base.{ℕ, ◌≡◌, refl, List, [], ◌∷◌, ◌++◌, arith}
use t3api.Runtime.{Ref, History, deserialized, added, updated, removed, persisted}
use t3api.Runtime.Laws.{changes, persists}

pub data Write : Type 0 where
  inserted : Ref → Write
  modified : Ref → Write
  deleted : Ref → Write

abbrev pub deletions : List Ref → List Write
deletions [] = []
deletions (x ∷ xs) = deleted x ∷ deletions xs

-- the writes since `persistAll` was last called, the last one first
abbrev pub pending : History → List Write
pending [] = []
pending (persisted ∷ h) = []
pending (added x ∷ h) = inserted x ∷ pending h
pending (updated x ∷ h) = modified x ∷ pending h
pending (removed x ∷ h) = deleted x ∷ pending h
pending (deserialized t rs ∷ h) = deletions rs ++ pending h
pending (_ ∷ h) = pending h

abbrev pub durable : History → List Write
durable [] = []
durable (persisted ∷ h) = pending h ++ durable h
durable (_ ∷ h) = durable h

-- how often it was persisted, and what is durable
abbrev pub trace : History → ℕ × List Write
trace h = (persists h, durable h)

pub pending-changes : (h : History) → pending (changes h) ≡ pending h
pending-changes [] = refl
pending-changes (c ∷ h) = ground (arith, pending-changes h)

pub durable-changes : (h : History) → durable (changes h) ≡ durable h
durable-changes [] = refl
durable-changes (c ∷ h) = ground (arith, durable-changes h, pending-changes h)
