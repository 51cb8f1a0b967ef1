-- ===== src/Examples/Databases.antt =====
-- Batches written to a file whose database fails (UIMFWriter/src/UIMFWriter.cpp).
use aq_md3_acquisition_conso.Common.{
  ℕ, ◌≡◌, refl, ap, ◌∙◌, Bool, true, false, Option, none, some, List, [], ◌∷◌, ◌++◌, arith,
}
use aq_md3_acquisition_conso.Writer.{ScanRow}
use aq_md3_acquisition_conso.Writer.Transaction.{
  Statement, pragma_synchronous, begin_transaction, end_transaction, insert_scan, update_param,
  Sqlite, IsTransactional, on_notify,
}
use aq_md3_acquisition_conso.Writer.Transaction.Atomic.{IsAtomic, batch_rows, on_notify-IsAtomic}
use aq_md3_acquisition_conso.Examples.Files.{whole, from_zero}

-- A file, its open transaction, and which of the next statements throw.
pub record File : Type 0 where
  stored : List (ScanRow ℕ)
  open_rows : Option (List (ScanRow ℕ))
  throws : List Bool

abbrev tail_of : List Bool → List Bool
tail_of [] = []
tail_of (b ∷ bs) = bs

abbrev does_throw : List Bool → Bool
does_throw [] = false
does_throw (b ∷ bs) = b

abbrev end_rows : Option (List (ScanRow ℕ)) → List (ScanRow ℕ)
end_rows none = []
end_rows (some rows) = rows

abbrev add_row : ScanRow ℕ → Option (List (ScanRow ℕ)) → Option (List (ScanRow ℕ))
add_row row none = none
add_row row (some rows) = some (rows ++ row ∷ [])

abbrev run : Statement ℕ → File → File
run (pragma_synchronous n) d = d
run begin_transaction d = record d { open_rows = some [] }
run (insert_scan row) d = record d { open_rows = add_row row d.open_rows }
run end_transaction d = record d { stored = d.stored ++ end_rows d.open_rows; open_rows = none }
run (update_param value frame_number param_id) d = d

abbrev exec_turn : Bool → Statement ℕ → File → File × Bool
exec_turn true s d = (d, false)
exec_turn false s d = (run s d, true)

abbrev pub toy : Sqlite ℕ File
toy = record {
  open_readwrite = λ d. some (record d { open_rows = none });
  read_parameters =
      λ n d. some (record { frame_params = (12, 2) ∷ (13, 1) ∷ []; bin_width = some 1 });
  prepare_update = λ d. true;
  exec = λ s d. exec_turn (does_throw d.throws) s (record d { throws = tail_of d.throws });
  close = λ d. record d { open_rows = none };
}

turn-stored :
    (b : Bool) (s : Statement ℕ) (d : File)
    → (exec_turn b s d).1 ≡ false
    → (exec_turn b s d).0.stored ≡ d.stored
turn-stored true s d e = refl
turn-stored false s d e = ground arith

turn-runs :
    (b : Bool) (s : Statement ℕ) (d : File)
    → (exec_turn b s d).1 ≡ true
    → (exec_turn b s d).0 ≡ run s d
turn-runs true s d e = ground arith
turn-runs false s d e = refl

pub toy-IsTransactional : IsTransactional toy
toy-IsTransactional = record {
  committed = λ d. d.stored;
  pending = λ d. d.open_rows;
  opened = λ d e f. ground arith;
  failed = λ s d e. turn-stored (does_throw d.throws) s _ e;
  set = λ n d e. (
    ap (λ (x : File). x.stored) (turn-runs (does_throw d.throws) (pragma_synchronous n) _ e),
    ap (λ (x : File). x.open_rows) (turn-runs (does_throw d.throws) (pragma_synchronous n) _ e),
  );
  begun = λ d e. (
    ap (λ (x : File). x.stored) (turn-runs (does_throw d.throws) begin_transaction _ e),
    ap (λ (x : File). x.open_rows) (turn-runs (does_throw d.throws) begin_transaction _ e),
  );
  inserted = λ row d rows p e. (
    ap (λ (x : File). x.stored) (turn-runs (does_throw d.throws) (insert_scan row) _ e),
    ap (λ (x : File). x.open_rows) (turn-runs (does_throw d.throws) (insert_scan row) _ e)
        ∙ ap (add_row row) p,
  );
  ended = λ d rows p e.
      ap (λ (x : File). x.stored) (turn-runs (does_throw d.throws) end_transaction _ e)
      ∙ ap (λ o. d.stored ++ end_rows o) p;
  closed = λ d. refl;
}

-- The third statement, which is the first insert, throws.
abbrev pub at_third : File
at_third = record { stored = []; open_rows = none; throws = false ∷ false ∷ true ∷ [] }

on_notify-IsAtomic_example :
    IsAtomic ⦃real = whole⦄ toy toy-IsTransactional
      (toy-IsTransactional.committed at_third)
      (batch_rows ⦃real = whole⦄ toy toy-IsTransactional from_zero at_third)
      (on_notify ⦃real = whole⦄ toy from_zero at_third)
on_notify-IsAtomic_example =
    on_notify-IsAtomic ⦃real = whole⦄ toy toy-IsTransactional from_zero at_third
