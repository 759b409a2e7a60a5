-- ===== src/EditOperations/Edited.antt =====
-- The application of a validated batch to the candidate, against the map of its files changed at once.
use local_ai_workestra.Base.{
  ◌≡◌, ◌≢◌, refl, sym, ap, ◌∙◌, Bool, true, false, Bool-cases, inl, inr, Option, none, some,
  is_some, List, [], ◌∷◌, ◌++◌, map, if◌then◌else◌, Text, text_eq, text_eq_refl, text_eq_sound,
  text_eq_comm, text_in, text_in-cons, Result, ok, err, arith, ◌⊎◌, Option-cases,
}
use local_ai_workestra.Session.{RunError}
use local_ai_workestra.EditOperations.{
  EditKind, replace_exact, create_file, delete_file, EditOperation, Refusal, raised,
}
use local_ai_workestra.EditOperations.Validate.{Checkout}
use local_ai_workestra.EditOperations.Accepts.{
  Gives, creates, replaces, deletes, Accepts, none_left, next,
}
use local_ai_workestra.EditOperations.Apply.{
  Files, set_file, put, content_at, unlink, write_text, apply_operation, apply_to_candidate,
}

module _ (locate : Text → Text) (refuses : Text → Files → Option RunError) where
  -- The content that a batch gives to a place, if it names the place.
  abbrev pub content_for : Text → List (Text × Option Text) → Option (Option Text)
  content_for place [] = none
  content_for place ((p, content) ∷ rest) =
      let later = content_for place rest in if text_eq place (locate p) then some content else later

  -- The files, with all contents of the batch put at once.
  abbrev pub edited : List (Text × Option Text) → Files → Files
  edited contents files place = elim (content_for place contents) as (λ _. Option Text) [
    | none ↦ files place
    | some content ↦ content
  ]

  -- Each file that is to be deleted is there.
  abbrev pub IsPresent : List EditOperation → Files → Type 0
  IsPresent [] files = Unit
  IsPresent (op ∷ ops) files =
      (op.kind ≡ delete_file → is_some (files (locate op.path)) ≡ true) × IsPresent ops files

  -- The application returns the paths in order and the files of the specification.
  pub record IsEdited (ops : List EditOperation) (contents : List (Text × Option Text))
      (files : Files) (result : Result Refusal (List Text × Files)) : Type 0 where
    pub after : Files
    pub returned : result ≡ ok (map (λ (op : EditOperation). op.path) ops, after)
    pub same : (place : Text) → after place ≡ edited contents files place

  -- The file system refused one content of the batch, on the files with the contents before it, and
  -- what it raised is raised.
  pub record IsRefused (contents : List (Text × Option Text)) (files : Files)
      (result : Result Refusal (List Text × Files)) : Type 0 where
    pub earlier : List (Text × Option Text)
    pub path : Text
    pub content : Option Text
    pub later : List (Text × Option Text)
    pub split : contents ≡ earlier ++ (path, content) ∷ later
    pub before : Files
    pub same : (place : Text) → before place ≡ edited earlier files place
    pub error : RunError
    pub refused : refuses (locate path) before ≡ some error
    pub thrown : result ≡ err (raised error)

  put-none :
      (place : Text) (content : Option Text) (files : Files)
      → refuses place files ≡ none
      → put locate refuses place content files ≡ ok (set_file place content files)
  unfolding put
  put-none place content files h = rw (h, put) refl

  put-some :
      (place : Text) (content : Option Text) (files : Files) (e : RunError)
      → refuses place files ≡ some e
      → put locate refuses place content files ≡ err (raised e)
  unfolding put
  put-some place content files e h = rw (h, put) refl

  module _ (checkout : Checkout) (grounded forbidden : List Text)
      (lexical : (p q : Text)
        → text_eq (locate p) (locate q) ≡ true
        → checkout.resolve p ≡ checkout.resolve q) where
    fresh_ne :
        (p q : Text) (seen : List Text)
        → text_in (checkout.resolve p) seen ≡ false
        → text_in (checkout.resolve q) seen ≡ true
        → checkout.resolve p ≢ checkout.resolve q
    fresh_ne p q seen fresh there same = cc (fresh, there, ap (λ r. text_in r seen) same)

    place_ne :
        (p q : Text) (seen : List Text)
        → text_in (checkout.resolve p) seen ≡ false
        → text_in (checkout.resolve q) seen ≡ true
        → text_eq (locate p) (locate q) ≡ false
    place_ne p q seen fresh there = elim (Bool-cases (text_eq (locate p) (locate q))) [
      | inl same ↦ absurd (fresh_ne p q seen fresh there (lexical p q same))
      | inr other ↦ other
    ]

    path_ne :
        (p q : Text) (seen : List Text)
        → text_in (checkout.resolve p) seen ≡ false
        → text_in (checkout.resolve q) seen ≡ true
        → text_eq p q ≡ false
    path_ne p q seen fresh there = elim (Bool-cases (text_eq p q)) [
      | inl same ↦
          absurd (fresh_ne p q seen fresh there (ap checkout.resolve (text_eq_sound p q same)))
      | inr other ↦ other
    ]

    seen_more :
        (q r : Text) (seen : List Text) → text_in q seen ≡ true → text_in q (r ∷ seen) ≡ true
    seen_more q r seen h = ground (arith, text_in-cons q r seen, h)

    seen_self : (q : Text) (seen : List Text) → text_in q (q ∷ seen) ≡ true
    seen_self q seen = ground (arith, text_in-cons q q seen, text_eq_refl q)

    abbrev Good : List Text → List EditOperation → List (Text × Option Text) → Type 0
    Good seen ops contents = Accepts checkout grounded forbidden seen ops contents

    -- The dictionary has the content of each operation.
    abbrev Found :
        List (Text × Option Text) → List EditOperation → List (Text × Option Text) → Type 0
    Found whole [] contents = Unit
    Found whole (op ∷ ops) [] = Unit
    Found whole (op ∷ ops) ((p, content) ∷ rest) =
        (content_at op.path whole ≡ ok content) × Found whole ops rest

    Found-cons :
        (p : Text) (content : Option Text) (whole : List (Text × Option Text)) (seen : List Text)
        (ops : List EditOperation) (contents : List (Text × Option Text))
        → text_in (checkout.resolve p) seen ≡ true
        → Good seen ops contents
        → Found whole ops contents
        → Found ((p, content) ∷ whole) ops contents
    unfolding content_at
    Found-cons p content whole seen [] contents there good found = tt
    Found-cons p content whole seen (op ∷ ops) contents there (next good later) found = (
      rw (path_ne op.path p seen good.fresh there) found.0,
      Found-cons p content whole (checkout.resolve op.path ∷ seen) ops _ (seen_more _ _ seen there)
          later found.1,
    )

    Good-Found :
        (seen : List Text) (ops : List EditOperation) (contents : List (Text × Option Text))
        → Good seen ops contents
        → Found contents ops contents
    unfolding content_at
    Good-Found seen [] contents good = tt
    Good-Found seen (op ∷ ops) contents (next {content = content} {rest = rest} good later) = (
      rw (text_eq_refl op.path) refl,
      Found-cons op.path content rest (checkout.resolve op.path ∷ seen) ops rest (seen_self _ seen)
          later (Good-Found (checkout.resolve op.path ∷ seen) ops rest later),
    )

    -- A place that was given before is none of the later ones.
    IsPresent-set :
        (p : Text) (content : Option Text) (files : Files) (seen : List Text)
        (ops : List EditOperation) (contents : List (Text × Option Text))
        → text_in (checkout.resolve p) seen ≡ true
        → Good seen ops contents
        → IsPresent ops files
        → IsPresent ops (set_file (locate p) content files)
    IsPresent-set p content files seen [] contents there good present = tt
    IsPresent-set p content files seen (op ∷ ops) contents there (next good later) present = (
      (λ deleted. rw (place_ne op.path p seen good.fresh there) (present.0 deleted)),
      IsPresent-set p content files (checkout.resolve op.path ∷ seen) ops _
          (seen_more _ _ seen there) later present.1,
    )

    content_for-earlier :
        (p place : Text) (seen : List Text) (ops : List EditOperation)
        (contents : List (Text × Option Text))
        → text_in (checkout.resolve p) seen ≡ true
        → Good seen ops contents
        → text_eq place (locate p) ≡ true
        → content_for place contents ≡ none
    content_for-earlier p place seen [] contents there none_left at = refl
    content_for-earlier p place seen (op ∷ ops) contents there (next {rest = rest} good later) at =
        rw
          (ap (λ x. text_eq x (locate op.path)) (text_eq_sound place (locate p) at)
            ∙ text_eq_comm (locate p) (locate op.path)
            ∙ place_ne op.path p seen good.fresh there)
          (content_for-earlier p place (checkout.resolve op.path ∷ seen) ops rest
            (seen_more _ _ seen there) later at)

    apply_operation-Gives :
        (op : EditOperation) (kind : EditKind) (content : Option Text) (files : Files)
        → Gives checkout grounded forbidden op kind content
        → (kind ≡ delete_file → is_some (files (locate op.path)) ≡ true)
        → apply_operation locate refuses kind (locate op.path) content files
          ≡ put locate refuses (locate op.path) content files
    unfolding apply_operation write_text unlink
    apply_operation-Gives op create_file content files (creates free from clean) present = refl
    apply_operation-Gives op replace_exact content files (replaces g r from given once) present =
        refl
    apply_operation-Gives op delete_file content files (deletes g) present = rw (present refl) refl

    -- What the content of one place does to the content that the rest gives.
    put_before :
        (o : Option (Option Text)) (b : Bool) (content kept : Option Text)
        → (b ≡ true → o ≡ none)
        → ◌≡◌ {A = Option Text}
            (elim o as (λ _. Option Text) [
              | none ↦ if b then content else kept
              | some given ↦ given
            ])
            (elim (if b then some content else o) as (λ _. Option Text) [
              | none ↦ kept
              | some given ↦ given
            ])
    put_before none true content kept h = refl
    put_before none false content kept h = refl
    put_before (some given) true content kept h = absurd (cc (h refl))
    put_before (some given) false content kept h = refl

    edited-cons :
        (p place : Text) (content : Option Text) (files : Files) (seen : List Text)
        (ops : List EditOperation) (rest : List (Text × Option Text))
        → text_in (checkout.resolve p) seen ≡ true
        → Good seen ops rest
        → edited rest (set_file (locate p) content files) place
          ≡ edited ((p, content) ∷ rest) files place
    edited-cons p place content files seen ops rest there good =
        put_before (content_for place rest) (text_eq place (locate p)) content (files place)
          (content_for-earlier p place seen ops rest there good)

    content_for-prefix :
        (place : Text) (earlier more : List (Text × Option Text))
        → content_for place (earlier ++ more) ≡ none
        → content_for place earlier ≡ none
    content_for-prefix place [] more h = refl
    content_for-prefix place ((p, content) ∷ earlier) more h =
        elim (Bool-cases (text_eq place (locate p))) [
          | inl here ↦ absurd (
              cc
                (h, ap (λ b. if b then some content else content_for place (earlier ++ more)) here))
          | inr other ↦ rw other (
              content_for-prefix place earlier more (
                sym
                  (ap (λ b. if b then some content else content_for place (earlier ++ more)) other)
                ∙ h))
        ]

    edited-prefix :
        (p place : Text) (content : Option Text) (files : Files) (seen : List Text)
        (ops : List EditOperation) (rest earlier more : List (Text × Option Text))
        → text_in (checkout.resolve p) seen ≡ true
        → Good seen ops rest
        → rest ≡ earlier ++ more
        → edited earlier (set_file (locate p) content files) place
          ≡ edited ((p, content) ∷ earlier) files place
    edited-prefix p place content files seen ops rest earlier more there good split =
        put_before (content_for place earlier) (text_eq place (locate p)) content (files place)
          (λ at. content_for-prefix place earlier more (
            sym (ap (content_for place) split)
            ∙ content_for-earlier p place seen ops rest there good at))

    apply_from-IsEdited :
        (whole : List (Text × Option Text)) (seen : List Text) (ops : List EditOperation)
        (contents : List (Text × Option Text)) (files : Files)
        → Good seen ops contents
        → Found whole ops contents
        → IsPresent ops files
        → IsEdited ops contents files (apply_to_candidate locate refuses whole ops files)
          ⊎ IsRefused contents files (apply_to_candidate locate refuses whole ops files)
    unfolding apply_to_candidate
    apply_from-IsEdited whole seen [] contents files none_left found present =
        inl (record { after = files; returned = refl; same = λ place. refl })
    apply_from-IsEdited whole seen (op ∷ ops) contents files
          (next {content = content} {rest = rest} good later) found present =
        let changed = set_file (locate op.path) content files in
        let there = seen_self (checkout.resolve op.path) seen in
        let applied = apply_operation-Gives op op.kind content files good.gives present.0 in
        elim (Option-cases (refuses (locate op.path) files)) [
          | inr (e, refused) ↦ inr (record {
            earlier = [];
            path = op.path;
            content = content;
            later = rest;
            split = refl;
            before = files;
            same = λ place. refl;
            error = e;
            refused = refused;
            thrown = rw (found.0, applied, put-some (locate op.path) content files e refused) refl;
          })
          | inl free ↦
              elim (apply_from-IsEdited whole (checkout.resolve op.path ∷ seen) ops rest changed
                later found.1
                (IsPresent-set op.path content files (checkout.resolve op.path ∷ seen) ops rest
                  there later present.1)) [
                    | inr stop ↦ inr (record {
                      earlier = (op.path, content) ∷ stop.earlier;
                      path = stop.path;
                      content = stop.content;
                      later = stop.later;
                      split = ap (λ more. (op.path, content) ∷ more) stop.split;
                      before = stop.before;
                      same = λ place.
                          stop.same place
                          ∙ edited-prefix op.path place content files
                              (checkout.resolve op.path ∷ seen) ops rest stop.earlier
                              ((stop.path, stop.content) ∷ stop.later) there later stop.split;
                      error = stop.error;
                      refused = stop.refused;
                      thrown =
                          rw
                            (
                              found.0,
                              applied,
                              put-none (locate op.path) content files free,
                              stop.thrown,
                            )
                            refl;
                    })
                    | inl done ↦ inl (record {
                      after = done.after;
                      returned =
                          rw
                            (
                              found.0,
                              applied,
                              put-none (locate op.path) content files free,
                              done.returned,
                            )
                            refl;
                      same = λ place.
                          done.same place
                          ∙ edited-cons op.path place content files
                              (checkout.resolve op.path ∷ seen) ops rest there later;
                    })
                  ]
        ]

    -- A batch that Accepts accepts, on a candidate whose files to be deleted are there: the application
    -- returns the paths in the order of the batch, and every place then has the content that the batch
    -- gives it, and where it gives none what it had; or it raises what the file system raised when it
    -- refused one content of the batch, on the files with the contents before it in the batch. Paths
    -- that lead to one place of the candidate have to lead to one place of the workspace.
    pub apply_to_candidate-IsEdited :
        (ops : List EditOperation) (contents : List (Text × Option Text)) (files : Files)
        → Accepts checkout grounded forbidden [] ops contents
        → IsPresent ops files
        → IsEdited ops contents files (apply_to_candidate locate refuses contents ops files)
          ⊎ IsRefused contents files (apply_to_candidate locate refuses contents ops files)
    apply_to_candidate-IsEdited ops contents files good present =
        apply_from-IsEdited contents [] ops contents files good (Good-Found [] ops contents good)
          present
