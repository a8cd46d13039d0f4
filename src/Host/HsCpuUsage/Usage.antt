-- ===== src/Host/HsCpuUsage/Usage.antt =====
-- What two readings of /proc/stat make of the use of each processor.
use libvsf.Prelude.{
  suc, ◌≡◌, refl, sym, ap, ◌∙◌, Bool, true, false, ◌&&◌, not, Option, none, some, List, [], ◌∷◌,
  arith, ◌==◌, length, if◌then◌else◌, Bool-cases, inl, inr, is_some,
}
use libvsf.Prelude.Int.{ℤ, pos, minus_one, eqb_ℤ, eq_of_parts}
use libvsf.Prelude.Double.{Double}
use libvsf.Prelude.Exec.{ok}
use libvsf.Container.Order.{same, same_iff}
use libvsf.Container.Map.{Map, find, emplace, find-emplace}
use libvsf.Utils.StrTools.{Text, split, eq_text}
use libvsf.Host.NodeCpu.{int_less}
use libvsf.Host.NodeCpu.Topology.{int-IsOrder}
use libvsf.Host.HsCpuUsage.{
  CpuTimeInfo, PhyCpuInfo, HsCpuUsage, cpu, phy_cpu_info, first_line, read_infos, get_phy_cpu,
  usage_of, usage_between, usages_of, compare_infos, collect_cpu_usage,
}

-- The same processors in the same order.
unfoldable pub same_cpus : List CpuTimeInfo → List CpuTimeInfo → Bool
same_cpus [] [] = true
same_cpus (a ∷ xs) (b ∷ bs) = eqb_ℤ a.cpu_id b.cpu_id && same_cpus xs bs
same_cpus [] (b ∷ bs) = false
same_cpus (a ∷ xs) [] = false

-- What a reading tells of a processor.
unfoldable pub info_of : ℤ → List CpuTimeInfo → Option CpuTimeInfo
info_of j [] = none
info_of j (a ∷ infos) = if same j a.cpu_id then some a else info_of j infos

abbrev pub both : {A B : Type 0} → (A → A → B) → Option A → Option A → Option B
both f (some a) (some b) = some (f a b)
both f (some a) none = none
both f none _ = none

abbrev pub or_else : {A : Type 0} → Option A → Option A → Option A
or_else (some a) _ = some a
or_else none b = b

or_else-none : {A : Type 0} (o : Option A) → o ≡ or_else o none
or_else-none none = refl
or_else-none (some a) = refl

same-eqb : (j a b : ℤ) → eqb_ℤ a b ≡ true → same j a ≡ same j b
same-eqb j a b h = ap (same j) (eq_of_parts a b (ground (arith, h)))

same_cpus-cons :
    (a b : CpuTimeInfo) (xs ys : List CpuTimeInfo)
    → same_cpus (a ∷ xs) (b ∷ ys) ≡ true
    → (eqb_ℤ a.cpu_id b.cpu_id ≡ true) × (same_cpus xs ys ≡ true)
unfolding same_cpus
same_cpus-cons a b xs ys h = (ground (arith, h), ground (arith, h))

length-same_cpus : (xs ys : List CpuTimeInfo) → same_cpus xs ys ≡ true → length xs ≡ length ys
unfolding same_cpus
length-same_cpus [] [] h = refl
length-same_cpus (a ∷ xs) (b ∷ ys) h =
    ap suc (length-same_cpus xs ys (same_cpus-cons a b xs ys h).1)
length-same_cpus [] (b ∷ ys) h = cc h
length-same_cpus (a ∷ xs) [] h = cc h

same_sym : (j k : ℤ) → same k j ≡ same j k
unfolding same
same_sym j k = ground arith

or_else-first :
    {A : Type 0} (o : Option A) (a : A) (o' : Option A)
    → or_else (if not (is_some o) then some a else o) o' ≡ or_else o (some a)
or_else-first none a o' = refl
or_else-first (some b) a o' = refl

-- An entry that is inserted counts after those that are there, and before those that follow.
or_else-emplace :
    {A B : Type 0} (f : A → A → B) (k j : ℤ) (a b : A) (o o' : Option A) (m : Map ℤ B)
    → or_else (find j (emplace k (f a b) m)) (both f o o')
      ≡ or_else
          (find j m)
          (both f (if same j k then some a else o) (if same j k then some b else o'))
or_else-emplace f k j a b o o' m = elim (Bool-cases (same j k)) [
  | inl e ↦
      let key : j ≡ k = (same_iff int-IsOrder j k).0 e in
      rw (find-emplace int-IsOrder k j (f a b) m, same_sym j k, e, sym key)
        (or_else-first (find j m) (f a b) (both f o o'))
  | inr e ↦ rw (find-emplace int-IsOrder k j (f a b) m, same_sym j k, e) refl
]

module _ (d : Double) where
  usages_of-eqb :
      (a b : CpuTimeInfo) (xs ys : List CpuTimeInfo) (m : Map ℤ d.F) {t : Bool}
      → eqb_ℤ a.cpu_id b.cpu_id ≡ t
      → usages_of d (a ∷ xs) (b ∷ ys) m ≡ elim t [
        | true ↦ usages_of d xs ys (emplace a.cpu_id (usage_between d a b) m)
        | false ↦ none
      ]
  unfolding usages_of
  usages_of-eqb a b xs ys m e =
      ap
        (λ t. elim t [
          | true ↦ usages_of d xs ys (emplace a.cpu_id (usage_between d a b) m)
          | false ↦ none
        ])
        e

  usages_of-same :
      (xs ys : List CpuTimeInfo) (m : Map ℤ d.F)
      → same_cpus xs ys ≡ true
      → (m' : Map ℤ d.F) × (usages_of d xs ys m ≡ some m')
        × ((j : ℤ)
            → find j m' ≡ or_else (find j m) (both (usage_between d) (info_of j xs) (info_of j ys)))
  unfolding same_cpus usages_of info_of
  usages_of-same [] [] m h = (m, refl, λ j. or_else-none (find j m))
  usages_of-same (a ∷ xs) (b ∷ ys) m h =
      let (ids, rest) = same_cpus-cons a b xs ys h in
      let (m', e, k) = usages_of-same xs ys (emplace a.cpu_id (usage_between d a b) m) rest in
      (
        m',
        usages_of-eqb a b xs ys m ids ∙ e,
        λ j.
            k j
            ∙ rw (sym (same-eqb j a.cpu_id b.cpu_id ids))
                (or_else-emplace (usage_between d) a.cpu_id j a b (info_of j xs) (info_of j ys) m),
      )
  usages_of-same [] (b ∷ ys) m h = cc h
  usages_of-same (a ∷ xs) [] m h = cc h

  usages_of-differ :
      (xs ys : List CpuTimeInfo) (m : Map ℤ d.F)
      → (length xs == length ys) ≡ true
      → same_cpus xs ys ≡ false
      → usages_of d xs ys m ≡ none
  unfolding same_cpus usages_of
  usages_of-differ [] [] m e h = cc h
  usages_of-differ (a ∷ xs) (b ∷ ys) m e h = elim (Bool-cases (eqb_ℤ a.cpu_id b.cpu_id)) [
    | inl ids ↦
        usages_of-eqb a b xs ys m ids
        ∙ usages_of-differ xs ys (emplace a.cpu_id (usage_between d a b) m) (ground (arith, e))
            (ground (arith, h, ids))
    | inr ids ↦ usages_of-eqb a b xs ys m ids
  ]
  usages_of-differ [] (b ∷ ys) m e h = ground (arith, e)
  usages_of-differ (a ∷ xs) [] m e h = ground (arith, e)

first_line-num :
    (tokens : List Text) (infos : List CpuTimeInfo) (r : PhyCpuInfo)
    → first_line tokens infos ≡ ok (some r)
    → r.cpu_num ≡ length r.cpu_time_infos
unfolding first_line
first_line-num [] infos r h = cc h
first_line-num (token ∷ tokens) infos r h = elim (Bool-cases (eq_text token cpu)) [
  | inl e ↦
      let same_info : phy_cpu_info tokens infos ≡ r = cc (rw e at h) in
      sym (ap (λ (q : PhyCpuInfo). q.cpu_num) same_info)
      ∙ ap (λ (q : PhyCpuInfo). length q.cpu_time_infos) same_info
  | inr e ↦ cc (rw e at h)
]

get_phy_cpu-num :
    (stat : Option (List Text)) (r : PhyCpuInfo)
    → get_phy_cpu stat ≡ ok (some r)
    → r.cpu_num ≡ length r.cpu_time_infos
unfolding get_phy_cpu
get_phy_cpu-num none r h = cc h
get_phy_cpu-num (some []) r h = cc h
get_phy_cpu-num (some (buf ∷ bufs)) r h = first_line-num (split buf 32 []) (read_infos bufs) r h

same_cpus-num :
    (ret1 ret2 : PhyCpuInfo)
    → ret1.cpu_num ≡ length ret1.cpu_time_infos
    → ret2.cpu_num ≡ length ret2.cpu_time_infos
    → same_cpus ret1.cpu_time_infos ret2.cpu_time_infos ≡ true
    → (ret1.cpu_num == ret2.cpu_num) ≡ true
same_cpus-num ret1 ret2 n1 n2 h =
    let e = length-same_cpus ret1.cpu_time_infos ret2.cpu_time_infos h in ground (arith, e, n1, n2)

-- Two readings of the same processors give the use of the host and of each of the processors, between
-- the readings. Readings of other processors give -1 and change nothing.
pub collect_cpu_usage_lem :
    (d : Double) (stat1 stat2 : Option (List Text)) (ret1 ret2 : PhyCpuInfo) (s : HsCpuUsage d.F)
    → get_phy_cpu stat1 ≡ ok (some ret1)
    → get_phy_cpu stat2 ≡ ok (some ret2)
    → (same_cpus ret1.cpu_time_infos ret2.cpu_time_infos ≡ true
        → (usages : Map ℤ d.F) × (collect_cpu_usage d stat1 stat2 s ≡ (
          ok (pos 0),
          record s {
            total_cpu_usage =
                usage_of d ret1.total_cpu_idle_time ret2.total_cpu_idle_time ret1.total_cpu_time
                  ret2.total_cpu_time;
            cpu_usages = usages;
            init = true;
          },
        ))
          × ((j : ℤ)
              → find j usages
                ≡ both
                    (usage_between d)
                    (info_of j ret1.cpu_time_infos)
                    (info_of j ret2.cpu_time_infos)))
      × (same_cpus ret1.cpu_time_infos ret2.cpu_time_infos ≡ false
          → collect_cpu_usage d stat1 stat2 s ≡ (ok minus_one, s))
unfolding collect_cpu_usage compare_infos find
collect_cpu_usage_lem d stat1 stat2 ret1 ret2 s e1 e2 =
    let n1 = get_phy_cpu-num stat1 ret1 e1 in
    let n2 = get_phy_cpu-num stat2 ret2 e2 in
    let compared : collect_cpu_usage d stat1 stat2 s ≡ compare_infos d ret1 ret2 s =
      rw (e1, e2, collect_cpu_usage) refl in
    (
      λ h.
          let (usages, e, k) = usages_of-same d ret1.cpu_time_infos ret2.cpu_time_infos [] h in
          (usages, compared ∙ rw (same_cpus-num ret1 ret2 n1 n2 h, e) refl, k),
      λ h. compared ∙ elim (Bool-cases (ret1.cpu_num == ret2.cpu_num)) [
        | inl n ↦
            rw
              (
                n,
                usages_of-differ d ret1.cpu_time_infos ret2.cpu_time_infos []
                    (rw (sym n1, sym n2) n) h,
              )
              refl
        | inr n ↦ rw n refl
      ],
    )
