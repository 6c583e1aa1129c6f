-- ===== src/DeepCopy/Tests.antt =====
-- A watch and a list of it in memory, with labels as an example of what ObjectMeta refers to.
use stale_secrets_check.Prelude.{String, Option, none, some, List, [], ◌∷◌, ◌≡◌, refl, pos, arith}
use stale_secrets_check.Api.{GoMap, ExcludeList}
use stale_secrets_check.Memory.{Heap, Address, Kind, pure, deep_copy_with, update}
use stale_secrets_check.Memory.Copying.{
  Rep, Flat, Flat-IsLocal, copy-Copies, Pointed, Pointed-IsLocal, Extends, update-other,
  deep_copy_with-Copies,
}
use stale_secrets_check.Layout.{Watch, WatchList, Cell}
use stale_secrets_check.DeepCopy.{
  Library, deep_copy_into_watch, deep_copy_into_spec, deep_copy_into_stale_secret_to_watch,
  deep_copy_into_status, stale_secret_watch_list, as_object, deep_copy_watch,
  deep_copy_object_watch_list,
}
use stale_secrets_check.DeepCopy.Represents.{WatchRep, WatchValue, WatchListValue}
use stale_secrets_check.DeepCopy.Objects.{IsLawful}
use stale_secrets_check.DeepCopy.Independent.{
  WatchPointed, WatchListPointed, deep_copy_object_watch_list-Copied, deep_copy_watch-independent,
}

abbrev Labels : Type 0
Labels = GoMap String

-- The metadata is a pointer to labels; that of the list is a text.
abbrev SampleCell : Type 0
SampleCell = Cell (Option Address) String Labels

abbrev get_labels : SampleCell → Option Labels
get_labels (Cell.other l) = some l
get_labels _ = none

abbrev labels_kind : Kind SampleCell Labels
labels_kind = record { put = Cell.other; get = get_labels; zero = [] }

abbrev library : Library (Option Address) String Labels
library = record {
  zero_meta = none;
  zero_list_meta = "";
  deep_copy_into_meta = deep_copy_with labels_kind pure;
  deep_copy_into_list_meta = pure;
  deep_copy_into_time = λ t. t;
  deep_copy_into_condition = λ c. c;
}

abbrev LabelsRep : Rep SampleCell (Option Address) (Option Labels)
LabelsRep = Pointed labels_kind Flat

abbrev TextRep : Rep SampleCell String String
TextRep = Flat

library-IsLawful : IsLawful library LabelsRep TextRep
library-IsLawful = record {
  meta_local = Pointed-IsLocal labels_kind Flat Flat-IsLocal;
  list_meta_local = Flat-IsLocal;
  meta_copies =
      deep_copy_with-Copies labels_kind Flat pure (λ l. refl) Flat-IsLocal
        (copy-Copies (λ c. c) (λ c. refl));
  list_meta_copies = copy-Copies (λ c. c) (λ c. refl);
  same_time = λ t. refl;
  same_condition = λ c. refl;
}

abbrev excluded : List ExcludeList
excluded = record { namespace = "app"; secret_name = "db" } ∷ []

abbrev labels : Labels
labels = ("tier", "back") ∷ []

-- the watch with address 1 for its exclude list, 2 for its interval and 3 for its labels
abbrev stored : Watch (Option Address)
stored = record {
  type_meta = record { kind = "StaleSecretWatch"; api_version = "v1beta1" };
  meta = some 3;
  spec = record {
    stale_secret_to_watch = record { namespace = "app"; exclude_list = some 1 };
    stale_threshold_in_days = pos 30;
    refresh_interval = some 2;
  };
  status = record { conditions = none; secret_status = none; stale_secrets_count = pos 0 };
}

abbrev value : WatchValue (Option Labels)
value = record {
  type_meta = record { kind = "StaleSecretWatch"; api_version = "v1beta1" };
  meta = some labels;
  spec = record {
    stale_secret_to_watch = record { namespace = "app"; exclude_list = some excluded };
    stale_threshold_in_days = pos 30;
    refresh_interval = some (pos 3600);
  };
  status = record { conditions = none; secret_status = none; stale_secrets_count = pos 0 };
}

abbrev stored_list : WatchList String
stored_list = record {
  type_meta = record { kind = "StaleSecretWatchList"; api_version = "v1beta1" };
  meta = "1";
  items = some 4;
}

abbrev list_value : WatchListValue (Option Labels) String
list_value = record {
  type_meta = record { kind = "StaleSecretWatchList"; api_version = "v1beta1" };
  meta = "1";
  items = some (value ∷ []);
}

abbrev cells : Address → Option SampleCell
cells =
    update
      (update
        (update
          (update
            (update (update (λ _. none) 0 (Cell.watch stored)) 1 (Cell.exclude_lists excluded)) 2
            (Cell.duration (pos 3600)))
          3 (Cell.other labels))
        4 (Cell.watches (stored ∷ [])))
      5 (Cell.watch_list stored_list)

abbrev memory : Heap SampleCell
memory = record { next = 6; cell = cells }

stored-Represents : WatchRep LabelsRep 0 6 memory stored value
stored-Represents = (
  refl,
  (omega arith, omega arith, labels, refl, refl),
  (
    (refl, (omega arith, omega arith, excluded, refl, ((refl, tt)))),
    refl,
    (omega arith, omega arith, pos 3600, refl, refl),
  ),
  (tt, tt, refl),
)

deep_copy_object_watch_list-Copied_example :
    (p' : Option Address) × (h' : Heap SampleCell) × (deep_copy_object_watch_list library
        (some 5)
        memory
      ≡ some (as_object stale_secret_watch_list p', h'))
    × Extends memory h'
    × WatchListPointed library LabelsRep TextRep 6 h'.next h' p' (some list_value)
deep_copy_object_watch_list-Copied_example =
    deep_copy_object_watch_list-Copied library LabelsRep TextRep library-IsLawful memory (some 5)
      (some list_value)
      (
        omega arith,
        omega arith,
        stored_list,
        refl,
        (refl, refl, (omega arith, omega arith, stored ∷ [], refl, (stored-Represents, tt))),
      )

abbrev heap_of : Option (Option Address × Heap SampleCell) → Heap SampleCell
heap_of none = memory
heap_of (some r) = r.1

abbrev copied : Heap SampleCell
copied = heap_of (deep_copy_watch library (some 0) memory)

copied_test : deep_copy_watch library (some 0) memory ≡ some (some 6, copied)
unfolding deep_copy_watch deep_copy_into_watch deep_copy_into_spec
    deep_copy_into_stale_secret_to_watch deep_copy_into_status
copied_test = refl

-- someone writes to the exclude list of the copy
abbrev written : Heap SampleCell
written = record copied { cell = update copied.cell 8 (Cell.exclude_lists []) }

-- someone writes to that of the original
abbrev rewritten : Heap SampleCell
rewritten = record copied { cell = update copied.cell 1 (Cell.exclude_lists []) }

deep_copy_watch-independent_example :
    WatchPointed library LabelsRep 0 6 written (some 0) (some value)
    × WatchPointed library LabelsRep 6 copied.next rewritten (some 6) (some value)
deep_copy_watch-independent_example =
    deep_copy_watch-independent library LabelsRep TextRep library-IsLawful memory copied written
      rewritten (some 0) (some 6) (some value)
      (omega arith, omega arith, stored, refl, stored-Represents) copied_test
      (λ q l u. update-other copied.cell 8 q (Cell.exclude_lists []) (λ e. omega arith))
      (λ q l u. update-other copied.cell 1 q (Cell.exclude_lists []) (λ e. omega arith))
