-- ===== src/Lab4/Client/Calls.antt =====
-- The invariant of the client's calls, and the changes of one call that keep it.
use nssa_ds.Base.{
  ℕ, ◌<◌, ◌≡◌, ◌≢◌, refl, sym, ◌∙◌, ap, ◌⊎◌, inl, inr, Bool, true, false, Bool-cases, List, Option,
  none, some, arith,
}
use nssa_ds.Base.Map.{
  nat_key, lookup, insert, erase, lookup-insert_same, lookup-insert_ne, lookup-erase, beq_refl,
}
use nssa_ds.Base.Text.{Text, text_key, text_eq, text_eq_iff}
use nssa_ds.Lab4.Client.{Response, Phase, waiting, leaving, removed, returned, Call, Client, put}
use mathlib.Core.Option.{some-injective, none-ne-some}
use native.Mathlib.Decide.{ℕ_discrete}

-- A response that a call has, if it has one, is for its ID.
abbrev pub Fits : Text → Option Response → Type 0
Fits id none = Unit {0}
Fits id (some response) = response.id ≡ id

abbrev pub result : Phase → Option Response
result waiting = none
result (leaving r) = r
result (removed r) = r
result (returned r) = r

-- The call may still have its entry in the map.
abbrev pub listed : Phase → Bool
listed waiting = true
listed (leaving r) = true
listed (removed r) = false
listed (returned r) = false

abbrev pub is_returned : Phase → Bool
is_returned waiting = false
is_returned (leaving r) = false
is_returned (removed r) = false
is_returned (returned r) = true

pub record IsCall (call : Call) : Type 0 where
  pub buffer_fits : Fits call.id call.buffer
  pub result_fits : Fits call.id (result call.phase)
  pub closed_last : call.closed ≡ is_returned call.phase

-- What an entry of the map names.
pub record Named (c : Client) (id : Text) (ptr : ℕ) : Type 0 where
  pub call : Call
  pub is_there : lookup ptr c.calls ≡ some call
  pub same_id : call.id ≡ id
  pub still_listed : listed call.phase ≡ true

-- Calls are numbered from 0 on.
abbrev pub Fresh : Client → Type 0
Fresh c = (ptr : ℕ) (call : Call) → lookup ptr c.calls ≡ some call → ptr < c.next

pub record IsClient (c : Client) : Type 0 where
  pub are_calls : (ptr : ℕ) (call : Call) → lookup ptr c.calls ≡ some call → IsCall call
  pub are_named : (id : Text) (ptr : ℕ) → lookup id c.responses ≡ some ptr → Named c id ptr
  pub no_panic : c.panicked ≡ false
  pub fresh : Fresh c

pub text_cases : (a b : Text) → (a ≡ b) ⊎ (a ≢ b)
text_cases a b = elim (Bool-cases (text_eq a b)) [
  | inl e ↦ inl ((text_eq_iff a b).0 e)
  | inr e ↦ inr (λ same. let bad : true ≡ false = sym ((text_eq_iff a b).1 same) ∙ e in cc)
]

-- A call at `ptr` after an insertion there.
pub inserted :
    (ptr q : ℕ) (call found : Call) (calls : List (ℕ × Call))
    → lookup q (insert ptr call calls) ≡ some found
    → ((q ≡ ptr) × (found ≡ call)) ⊎ (lookup q calls ≡ some found)
inserted ptr q call found calls e = elim (ℕ_discrete ptr q) [
  | yes same ↦
      let e' : lookup ptr (insert ptr call calls) ≡ some found = rw (sym same) at e in
      inl (sym same, some-injective found call (sym e' ∙ lookup-insert_same ptr call calls))
  | no differ ↦ inr (sym (lookup-insert_ne ptr q call calls differ) ∙ e)
]

pub put-IsClient :
    (ptr : ℕ) (call call' : Call) (c : Client)
    → IsClient c
    → lookup ptr c.calls ≡ some call
    → IsCall call'
    → call'.id ≡ call.id
    → ((id : Text) → lookup id c.responses ≡ some ptr → listed call'.phase ≡ true)
    → IsClient (put ptr call' c)
put-IsClient ptr call call' c h there k same kept = record {
  are_calls = λ q found e. elim (inserted ptr q call' found c.calls e) [
    | inl (_, is) ↦ rw is k
    | inr old ↦ h.are_calls q found old
  ];
  are_named = λ id q e.
      let n = h.are_named id q e in
      elim (ℕ_discrete ptr q) [
        | yes is ↦
            let one =
              some-injective call n.call (sym there ∙ ap (λ p. lookup p c.calls) is ∙ n.is_there) in
            record {
              call = call';
              is_there =
                  ap (λ p. lookup p (insert ptr call' c.calls)) (sym is)
                  ∙ lookup-insert_same ptr call' c.calls;
              same_id = same ∙ ap (λ (k : Call). k.id) one ∙ n.same_id;
              still_listed = kept id (e ∙ ap some (sym is));
            }
        | no differ ↦ record {
          call = n.call;
          is_there = lookup-insert_ne ptr q call' c.calls differ ∙ n.is_there;
          same_id = n.same_id;
          still_listed = n.still_listed;
        }
      ];
  no_panic = h.no_panic;
  fresh = λ q found e. elim (inserted ptr q call' found c.calls e) [
    | inl (is, _) ↦ let older = h.fresh ptr call there in omega (arith, is, older)
    | inr old ↦ h.fresh q found old
  ];
}

-- What a call knows of its entries in the map.
pub listed-entry :
    (ptr : ℕ) (call : Call) (c : Client) (id : Text)
    → IsClient c
    → lookup ptr c.calls ≡ some call
    → lookup id c.responses ≡ some ptr
    → (call.id ≡ id) × (listed call.phase ≡ true)
listed-entry ptr call c id h there e =
    let n = h.are_named id ptr e in
    let one = some-injective n.call call (sym n.is_there ∙ there) in
    (
      sym (ap (λ (k : Call). k.id) one) ∙ n.same_id,
      ap (λ (k : Call). listed k.phase) (sym one) ∙ n.still_listed,
    )

-- A change of the call that keeps its phase listed if it was.
pub change-IsClient :
    (ptr : ℕ) (call call' : Call) (c : Client)
    → IsClient c
    → lookup ptr c.calls ≡ some call
    → IsCall call'
    → call'.id ≡ call.id
    → (listed call.phase ≡ true → listed call'.phase ≡ true)
    → IsClient (put ptr call' c)
change-IsClient ptr call call' c h there k same kept =
    put-IsClient ptr call call' c h there k same
      (λ id e. kept (listed-entry ptr call c id h there e).1)

pub erase-IsClient :
    (id : Text) (c : Client) → IsClient c → IsClient (record c { responses = erase id c.responses })
erase-IsClient id c h = record {
  are_calls = h.are_calls;
  are_named = λ j q e.
      let n = h.are_named j q (erased id j q c.responses e) in
      record {
        call = n.call;
        is_there = n.is_there;
        same_id = n.same_id;
        still_listed = n.still_listed;
      };
  no_panic = h.no_panic;
  fresh = h.fresh;
}
  where
    erased :
        (id j : Text) (q : ℕ) (m : List (Text × ℕ))
        → lookup j (erase id m) ≡ some q
        → lookup j m ≡ some q
    erased id j q m e = ground (arith, e, lookup-erase id j m)

pub no_entry : (id : Text) (ptr : ℕ) (m : List (Text × ℕ)) → lookup id (erase id m) ≢ some ptr
no_entry id ptr m e = none-ne-some ptr (sym (lookup-erase id id m ∙ rw (beq_refl id) refl) ∙ e)
