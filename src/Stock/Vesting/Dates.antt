-- ===== src/Stock/Vesting/Dates.antt =====
-- The `dict[date, int]` of app/services/vesting_engine.py, its least key and its sorted items.
use sole_backend.Prelude.{
  ℕ, suc, ◌+◌, ◌≤◌, ◌≡◌, ◌≢◌, refl, sym, ap, ◌∙◌, inl, inr, Option, none, some, List, [], ◌∷◌, leb,
  ◌==◌, if◌then◌else◌, min, sum_of, length, All, head?, Bool-cases, Option-cases, arith,
}

abbrev pub Dict : Type 0
Dict = List (ℕ × ℕ)

-- `upcoming.get(day, 0)`
unfoldable pub get : ℕ → Dict → ℕ
get day [] = 0
get day ((d, n) ∷ dict) = if d == day then n else get day dict

unfoldable pub put : ℕ → ℕ → Dict → Dict
put day n [] = (day, n) ∷ []
put day n ((d, m) ∷ dict) = if d == day then (d, n) ∷ dict else (d, m) ∷ put day n dict

-- `min(upcoming)`; `none` where the dictionary is empty.
unfoldable pub min_key : Dict → Option ℕ
min_key [] = none
min_key ((d, n) ∷ dict) = elim (min_key dict) [ none ↦ some d | some e ↦ some (min d e) ]

-- `sorted(upcoming.items(), key=lambda item: item[0])`, a stable sort.
unfoldable pub insert_item : ℕ × ℕ → Dict → Dict
insert_item (d, n) [] = (d, n) ∷ []
insert_item (d, n) ((e, m) ∷ dict) =
    if leb d e then (d, n) ∷ (e, m) ∷ dict else (e, m) ∷ insert_item (d, n) dict

unfoldable pub sorted_items : Dict → Dict
sorted_items [] = []
sorted_items (item ∷ dict) = insert_item item (sorted_items dict)

-- Facts about dictionaries.

abbrev pub total : Dict → ℕ
total = sum_of (λ item. item.1)

-- Every key is at least a bound.
abbrev pub AtLeast : ℕ → Dict → Type 0
AtLeast b = All (λ item. b ≤ item.0)

abbrev pub HasNo : ℕ → Dict → Type 0
HasNo day = All (λ item. item.0 ≢ day)

-- No key twice.
abbrev pub Distinct : Dict → Type 0
Distinct [] = Unit
Distinct ((d, n) ∷ dict) = HasNo d dict × Distinct dict

-- Strictly rising keys.
abbrev pub Rising : Dict → Type 0
Rising [] = Unit
Rising ((d, n) ∷ dict) = AtLeast (suc d) dict × Rising dict

get-HasNo : (day : ℕ) (dict : Dict) → HasNo day dict → get day dict ≡ 0
unfolding get
get-HasNo day [] h = refl
get-HasNo day ((d, n) ∷ dict) h = ground (arith, get-HasNo day dict h.1)

put-HasNo : (day e n : ℕ) (dict : Dict) → e ≢ day → HasNo day dict → HasNo day (put e n dict)
unfolding put
put-HasNo day e n [] ne h = (ne, tt)
put-HasNo day e n ((d, m) ∷ dict) ne h = ground (arith, put-HasNo day e n dict ne h.1)

pub put-Distinct : (day n : ℕ) (dict : Dict) → Distinct dict → Distinct (put day n dict)
unfolding put
put-Distinct day n [] h = (tt, tt)
put-Distinct day n ((d, m) ∷ dict) h = elim (Bool-cases (d == day)) [
  | inl e ↦ rw e h
  | inr e ↦ rw e (put-HasNo d day n dict (λ p. ground arith) h.0, put-Distinct day n dict h.1)
]

-- Adding to a day adds to the total.
pub total-put : (day k : ℕ) (dict : Dict) → total (put day (get day dict + k) dict) ≡ total dict + k
unfolding put get
total-put day k [] = omega arith
total-put day k ((d, m) ∷ dict) = ground (arith, total-put day k dict)

pub put-AtLeast :
    (b day n : ℕ) (dict : Dict) → b ≤ day → AtLeast b dict → AtLeast b (put day n dict)
unfolding put
put-AtLeast b day n [] le h = (le, tt)
put-AtLeast b day n ((d, m) ∷ dict) le h = ground (arith, put-AtLeast b day n dict le h.1)

AtLeast-le : (b c : ℕ) (dict : Dict) → b ≤ c → AtLeast c dict → AtLeast b dict
AtLeast-le b c [] le h = tt
AtLeast-le b c (item ∷ dict) le h = (omega arith, AtLeast-le b c dict le h.1)

insert_item-AtLeast :
    (b d n : ℕ) (dict : Dict) → b ≤ d → AtLeast b dict → AtLeast b (insert_item (d, n) dict)
unfolding insert_item
insert_item-AtLeast b d n [] le h = (le, tt)
insert_item-AtLeast b d n ((e, m) ∷ dict) le h =
    ground (arith, insert_item-AtLeast b d n dict le h.1)

pub sorted_items-AtLeast : (b : ℕ) (dict : Dict) → AtLeast b dict → AtLeast b (sorted_items dict)
unfolding sorted_items
sorted_items-AtLeast b [] h = tt
sorted_items-AtLeast b ((d, n) ∷ dict) h =
    insert_item-AtLeast b d n _ h.0 (sorted_items-AtLeast b dict h.1)

insert_item-HasNo :
    (day d n : ℕ) (dict : Dict) → d ≢ day → HasNo day dict → HasNo day (insert_item (d, n) dict)
unfolding insert_item
insert_item-HasNo day d n [] ne h = (ne, tt)
insert_item-HasNo day d n ((e, m) ∷ dict) ne h =
    ground (arith, insert_item-HasNo day d n dict ne h.1)

sorted_items-HasNo : (day : ℕ) (dict : Dict) → HasNo day dict → HasNo day (sorted_items dict)
unfolding sorted_items
sorted_items-HasNo day [] h = tt
sorted_items-HasNo day ((d, n) ∷ dict) h =
    insert_item-HasNo day d n _ h.0 (sorted_items-HasNo day dict h.1)

insert_item-Rising :
    (d n : ℕ) (dict : Dict) → HasNo d dict → Rising dict → Rising (insert_item (d, n) dict)
unfolding insert_item
insert_item-Rising d n [] new h = (tt, tt)
insert_item-Rising d n ((e, m) ∷ dict) new h = elim (Bool-cases (leb d e)) [
  | inl le ↦ rw le ((ground arith, AtLeast-le (suc d) (suc e) dict (ground arith) h.0), h)
  | inr gt ↦ rw gt (
    insert_item-AtLeast (suc e) d n dict (ground arith) h.0,
    insert_item-Rising d n dict new.1 h.1,
  )
]

pub sorted_items-Rising : (dict : Dict) → Distinct dict → Rising (sorted_items dict)
unfolding sorted_items
sorted_items-Rising [] h = tt
sorted_items-Rising ((d, n) ∷ dict) h =
    insert_item-Rising d n _ (sorted_items-HasNo d dict h.0) (sorted_items-Rising dict h.1)

total-insert_item : (d n : ℕ) (dict : Dict) → total (insert_item (d, n) dict) ≡ n + total dict
unfolding insert_item
total-insert_item d n [] = refl
total-insert_item d n ((e, m) ∷ dict) = ground (arith, total-insert_item d n dict)

pub total-sorted_items : (dict : Dict) → total (sorted_items dict) ≡ total dict
unfolding sorted_items
total-sorted_items [] = refl
total-sorted_items ((d, n) ∷ dict) =
    omega (arith, total-insert_item d n (sorted_items dict), total-sorted_items dict)

length-insert_item :
    (item : ℕ × ℕ) (dict : Dict) → length (insert_item item dict) ≡ suc (length dict)
unfolding insert_item
length-insert_item (d, n) [] = refl
length-insert_item (d, n) ((e, m) ∷ dict) = ground (arith, length-insert_item (d, n) dict)

pub length-sorted_items : (dict : Dict) → length (sorted_items dict) ≡ length dict
unfolding sorted_items
length-sorted_items [] = refl
length-sorted_items (item ∷ dict) =
    omega (arith, length-insert_item item (sorted_items dict), length-sorted_items dict)

-- The least key with its value, as `next_vesting_event` reads them.
abbrev pub least : Dict → Option (ℕ × ℕ)
least dict = elim (min_key dict) [ none ↦ none | some day ↦ some (day, get day dict) ]

abbrev head_insert : ℕ × ℕ → Option (ℕ × ℕ) → ℕ × ℕ
head_insert (d, n) none = (d, n)
head_insert (d, n) (some (e, m)) = if leb d e then (d, n) else (e, m)

head-insert_item :
    (d n : ℕ) (dict : Dict)
    → head? (insert_item (d, n) dict) ≡ some (head_insert (d, n) (head? dict))
unfolding insert_item
head-insert_item d n [] = refl
head-insert_item d n ((e, m) ∷ dict) = ground arith

min_key-HasNo : (d e : ℕ) (dict : Dict) → HasNo d dict → min_key dict ≡ some e → d ≢ e
unfolding min_key
min_key-HasNo d e [] h p = cc
min_key-HasNo d e ((c, n) ∷ dict) h p = elim (Option-cases (min_key dict)) [
  | inl q ↦ ground arith
  | inr (x, q) ↦ ground (arith, min_key-HasNo d x dict h.1)
]

least-cons :
    (d n : ℕ) (dict : Dict)
    → HasNo d dict
    → least ((d, n) ∷ dict) ≡ some (head_insert (d, n) (least dict))
unfolding min_key get
least-cons d n dict h = elim (Option-cases (min_key dict)) [
  | inl q ↦ ground arith
  | inr (x, q) ↦ ground (arith, min_key-HasNo d x dict h)
]

-- The least key of a dictionary, with its value, is the first of the sorted items.
pub least-head : (dict : Dict) → Distinct dict → least dict ≡ head? (sorted_items dict)
unfolding sorted_items
least-head [] h = unfold min_key in refl
least-head ((d, n) ∷ dict) h =
    least-cons d n dict h.0
    ∙ ap (λ o. some (head_insert (d, n) o)) (least-head dict h.1)
    ∙ sym (head-insert_item d n (sorted_items dict))
