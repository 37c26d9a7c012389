-- ===== src/Manager/Cancelling/Moves.antt =====
-- The journal readers of pkg/systemd's Manager: what each move of a cancel function keeps.
use nomad_driver_systemd.Prelude.{
  ℕ, suc, ◌≤◌, ◌<◌, ◌==◌, String, Bool, true, false, Option, none, some, ◌≡◌, ◌⊎◌, refl, sym, ◌∙◌,
  arith, eq_iff, inl, inr, ◌=?◌, if◌then◌else◌, Bool-cases, ◌≢◌, ap,
}
use nomad_driver_systemd.Manager.{Manager, update}
use nomad_driver_systemd.Manager.Registry.{reader}
use nomad_driver_systemd.Manager.Cancelling.{
  Stage, unissued, starting, kept, due, called, Readers, at_stage, take,
}

pub record Tidy (s : Readers) : Type 0 where
  pub issued : (r : ℕ) → s.manager.next_reader ≤ r → s.stage r ≡ unissued
  pub made : (r : ℕ) → s.stage r ≡ unissued → s.manager.next_reader ≤ r
  pub keeps : (u : String) (r : ℕ) → reader s.manager u ≡ some r → s.stage r ≡ kept
  pub kept_by : (r : ℕ) → s.stage r ≡ kept → (u : String) × (reader s.manager u ≡ some r)
  pub distinct :
      (u v : String) (r : ℕ) → reader s.manager u ≡ some r → reader s.manager v ≡ some r → u ≡ v
  pub cancelled : (r : ℕ) → s.stage r ≡ called → s.manager.cancelled r ≡ true
  pub live :
      s.manager.shut_down ≡ false → (r : ℕ) → s.manager.cancelled r ≡ true → s.stage r ≡ called
  pub ended :
      s.manager.shut_down ≡ true
      → (r : ℕ) → r < s.manager.next_reader
      → s.manager.cancelled r ≡ true

pub take_cases :
    (o : Option ℕ) (f : ℕ → Stage) (r : ℕ)
    → ((o ≡ some r) × (take o f r ≡ due)) ⊎ ((o ≢ some r) × (take o f r ≡ f r))
take_cases none f r = inr (λ e. cc, refl)
take_cases (some k) f r = elim (Bool-cases (r == k)) [
  | inl e ↦ inl (ground arith, rw e refl)
  | inr e ↦ inr (λ q. ground arith, rw e refl)
]

at_stage_cases :
    (k : ℕ) (t : Stage) (f : ℕ → Stage) (r : ℕ)
    → ((r ≡ k) × (at_stage k t f r ≡ t)) ⊎ ((r ≢ k) × (at_stage k t f r ≡ f r))
at_stage_cases k t f r = elim (Bool-cases (r == k)) [
  | inl e ↦ inl (ground arith, rw e refl)
  | inr e ↦ inr (λ q. ground arith, rw e refl)
]

-- The registry's readers and the contexts are as they were.
pub Tidy-same :
    (s : Readers) (n : Manager)
    → n.next_reader ≡ s.manager.next_reader
    → n.cancelled ≡ s.manager.cancelled
    → n.shut_down ≡ s.manager.shut_down
    → ((u : String) → reader n u ≡ reader s.manager u)
    → Tidy s
    → Tidy (record s { manager = n })
Tidy-same s n nx c down same v = record {
  issued = λ r l. v.issued r (ground arith);
  made = λ r e. ground (arith, v.made r e);
  keeps = λ u r h. v.keeps u r (sym (same u) ∙ h);
  kept_by = λ r e. let (u, h) = v.kept_by r e in (u, same u ∙ h);
  distinct = λ x y r h k. v.distinct x y r (sym (same x) ∙ h) (sym (same y) ∙ k);
  cancelled = λ r e. ap (λ f. f r) c ∙ v.cancelled r e;
  live = λ d r e. v.live (sym down ∙ d) r (sym (ap (λ f. f r) c) ∙ e);
  ended = λ d r l. ap (λ f. f r) c ∙ v.ended (sym down ∙ d) r (ground arith);
}

-- A unit's entry goes, or is new, and its cancel function is taken.
pub Tidy-drop :
    (unit : String) (s : Readers) (n : Manager)
    → n.next_reader ≡ s.manager.next_reader
    → n.cancelled ≡ s.manager.cancelled
    → n.shut_down ≡ s.manager.shut_down
    → ((u : String) → reader n u ≡ (if unit =? u then none else reader s.manager u))
    → Tidy s
    → Tidy (record { manager = n; stage = take (reader s.manager unit) s.stage })
Tidy-drop unit s n nx c down same v = record {
  issued = λ r l. elim (cases r) [
    | inl (e, t) ↦ absurd (ground (arith, v.keeps unit r e, v.issued r))
    | inr (_, t) ↦ t ∙ v.issued r (ground arith)
  ];
  made = λ r e. elim (cases r) [
    | inl (_, t) ↦ absurd (cc)
    | inr (_, t) ↦ ground (arith, v.made r (sym t ∙ e))
  ];
  keeps = λ u r h.
      let h' : reader s.manager u ≡ some r = ground (arith, same u) in
      elim (cases r) [
        | inl (e, t) ↦ absurd (ground (arith, same u, v.distinct unit u r e h', eq_iff unit u))
        | inr (_, t) ↦ t ∙ v.keeps u r h'
      ];
  kept_by = λ r e. elim (cases r) [
    | inl (_, t) ↦ absurd (cc)
    | inr (x, t) ↦
        let (u, h) = v.kept_by r (sym t ∙ e) in
        elim (Bool-cases (unit =? u)) [
          | inl q ↦
              let it : unit ≡ u = ground (arith, eq_iff unit u) in
              absurd (x (ap (reader s.manager) it ∙ h))
          | inr q ↦ (u, ground (arith, same u))
        ]
  ];
  distinct = λ x y r h k. ground (arith, same x, same y, v.distinct x y r);
  cancelled = λ r e. elim (cases r) [
    | inl (_, t) ↦ absurd (cc)
    | inr (_, t) ↦ ap (λ f. f r) c ∙ v.cancelled r (sym t ∙ e)
  ];
  live = λ d r e.
      let l = v.live (sym down ∙ d) r (sym (ap (λ f. f r) c) ∙ e) in
      elim (cases r) [ inl (q, t) ↦ absurd (cc (v.keeps unit r q)) | inr (_, t) ↦ t ∙ l ];
  ended = λ d r l. ap (λ f. f r) c ∙ v.ended (sym down ∙ d) r (ground arith);
}
  where
    cases :
        (r : ℕ)
        → ((reader s.manager unit ≡ some r) × (take (reader s.manager unit) s.stage r ≡ due))
          ⊎ ((reader s.manager unit ≢ some r)
              × (take (reader s.manager unit) s.stage r ≡ s.stage r))
    cases = take_cases (reader s.manager unit) s.stage

pub issues-Tidy :
    (s : Readers)
    → Tidy s
    → Tidy (record {
      manager = record s.manager {
        next_reader = suc s.manager.next_reader;
        cancelled = update s.manager.cancelled s.manager.next_reader s.manager.shut_down;
      };
      stage = at_stage s.manager.next_reader starting s.stage;
    })
unfolding reader
issues-Tidy s v = record {
  issued = λ r l. elim (cases r) [
    | inl (e, t) ↦ absurd (omega arith)
    | inr (x, t) ↦ t ∙ v.issued r (omega arith)
  ];
  made = λ r e. elim (cases r) [
    | inl (_, t) ↦ absurd (cc)
    | inr (x, t) ↦ let l = v.made r (sym t ∙ e) in ground arith
  ];
  keeps = λ u r h. elim (cases r) [
    | inl (e, _) ↦ absurd (ground (arith, v.keeps u r h, v.issued r))
    | inr (_, t) ↦ t ∙ v.keeps u r h
  ];
  kept_by =
      λ r e. elim (cases r) [ inl (_, t) ↦ absurd (cc) | inr (_, t) ↦ v.kept_by r (sym t ∙ e) ];
  distinct = v.distinct;
  cancelled = λ r e. elim (cases r) [
    | inl (_, t) ↦ absurd (cc)
    | inr (x, t) ↦ let old = v.cancelled r (sym t ∙ e) in ground arith
  ];
  live = λ d r e. elim (cases r) [
    | inl (x, _) ↦ absurd (ground arith)
    | inr (x, t) ↦ t ∙ v.live d r (ground arith)
  ];
  ended = λ d r l. elim (cases r) [
    | inl (x, _) ↦ ground arith
    | inr (x, _) ↦ let old = v.ended d r (ground arith) in ground arith
  ];
}
  where
    cases :
        (r : ℕ)
        → ((r ≡ s.manager.next_reader)
            × (at_stage s.manager.next_reader starting s.stage r ≡ starting))
          ⊎ ((r ≢ s.manager.next_reader)
              × (at_stage s.manager.next_reader starting s.stage r ≡ s.stage r))
    cases = at_stage_cases s.manager.next_reader starting s.stage

-- A reader that is about to start becomes that of a unit without one.
pub Tidy-attach :
    (unit : String) (r : ℕ) (s : Readers) (n : Manager)
    → s.stage r ≡ starting
    → reader s.manager unit ≡ none
    → n.next_reader ≡ s.manager.next_reader
    → n.cancelled ≡ s.manager.cancelled
    → n.shut_down ≡ s.manager.shut_down
    → ((u : String) → reader n u ≡ (if unit =? u then some r else reader s.manager u))
    → Tidy s
    → Tidy (record { manager = n; stage = at_stage r kept s.stage })
Tidy-attach unit r s n begun idle nx c down same v = record {
  issued = λ x l. elim (cases x) [
    | inl (e, _) ↦ absurd (ground (arith, v.issued r))
    | inr (_, t) ↦ t ∙ v.issued x (ground arith)
  ];
  made = λ x e. elim (cases x) [
    | inl (_, t) ↦ absurd (cc)
    | inr (_, t) ↦ ground (arith, v.made x (sym t ∙ e))
  ];
  keeps = λ u x h. elim (cases x) [
    | inl (_, t) ↦ t
    | inr (y, t) ↦ t ∙ v.keeps u x (ground (arith, same u))
  ];
  kept_by = λ x e. elim (cases x) [
    | inl (y, _) ↦ (unit, ground (arith, same unit, eq_iff unit unit))
    | inr (_, t) ↦
        let (u, h) = v.kept_by x (sym t ∙ e) in
        elim (Bool-cases (unit =? u)) [
          | inl q ↦
              let it : unit ≡ u = ground (arith, eq_iff unit u) in
              absurd (cc (ap (reader s.manager) it))
          | inr q ↦ (u, ground (arith, same u))
        ]
  ];
  distinct = λ a b x h k. ground (
    arith,
    same a,
    same b,
    v.distinct a b x,
    v.keeps a x,
    v.keeps b x,
    eq_iff unit a,
    eq_iff unit b,
  );
  cancelled = λ x e. elim (cases x) [
    | inl (_, t) ↦ absurd (cc)
    | inr (_, t) ↦ ap (λ f. f x) c ∙ v.cancelled x (sym t ∙ e)
  ];
  live = λ d x e.
      let l = v.live (sym down ∙ d) x (sym (ap (λ f. f x) c) ∙ e) in
      elim (cases x) [ inl (y, _) ↦ absurd (ground arith) | inr (_, t) ↦ t ∙ l ];
  ended = λ d x l. ap (λ f. f x) c ∙ v.ended (sym down ∙ d) x (ground arith);
}
  where
    cases :
        (x : ℕ)
        → ((x ≡ r) × (at_stage r kept s.stage x ≡ kept))
          ⊎ ((x ≢ r) × (at_stage r kept s.stage x ≡ s.stage x))
    cases = at_stage_cases r kept s.stage

-- A cancel function that the registry does not keep comes nearer to its call.
pub Tidy-move :
    (r : ℕ) (t : Stage) (f : ℕ → Bool) (s : Readers)
    → (t ≡ due) ⊎ ((t ≡ called) × (f r ≡ true))
    → (s.stage r ≡ starting) ⊎ (s.stage r ≡ due)
    → ((x : ℕ) → (f x ≡ s.manager.cancelled x) ⊎ ((x ≡ r) × (t ≡ called) × (f x ≡ true)))
    → Tidy s
    → Tidy (record { manager = record s.manager { cancelled = f }; stage = at_stage r t s.stage })
unfolding reader
Tidy-move r t f s to from same v = record {
  issued = λ x l. elim (cases x) [
    | inl (e, _) ↦ absurd (ground (arith, v.issued r))
    | inr (_, q) ↦ q ∙ v.issued x l
  ];
  made = λ x e. elim (cases x) [
    | inl (_, q) ↦ absurd (ground arith)
    | inr (_, q) ↦ v.made x (sym q ∙ e)
  ];
  keeps = λ u x h. elim (cases x) [
    | inl (y, _) ↦ absurd (ground (arith, v.keeps u x h))
    | inr (_, q) ↦ q ∙ v.keeps u x h
  ];
  kept_by = λ x e. elim (cases x) [
    | inl (_, q) ↦ absurd (ground arith)
    | inr (_, q) ↦ v.kept_by x (sym q ∙ e)
  ];
  distinct = v.distinct;
  cancelled = λ x e. elim (cases x) [
    | inl (y, q) ↦ ground arith
    | inr (_, q) ↦ ground (arith, same x, v.cancelled x (sym q ∙ e))
  ];
  live = λ d x e. elim (cases x) [
    | inl (y, q) ↦ ground (arith, same x, v.live d x)
    | inr (_, q) ↦ q ∙ v.live d x (ground (arith, same x))
  ];
  ended = λ d x l. ground (arith, same x, v.ended d x l);
}
  where
    cases :
        (x : ℕ)
        → ((x ≡ r) × (at_stage r t s.stage x ≡ t))
          ⊎ ((x ≢ r) × (at_stage r t s.stage x ≡ s.stage x))
    cases = at_stage_cases r t s.stage
