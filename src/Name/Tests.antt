-- ===== src/Name/Tests.antt =====
-- Runs of the name test.
use win16sync.Prelude.{◌≡◌, refl, true, false, [], codes, text_eq, c_text}
use win16sync.Text.{copy_text}
use win16sync.Name.{is_valid_char, upper_loop, component_tests, is_valid_component}
use win16sync.Prelude.{◌↔◌}
use win16sync.Name.Is83.{Is83, is_valid_component-Is83}

file : is_valid_component [] (codes "Read_me.txt") true ≡ true
unfolding is_valid_component copy_text upper_loop component_tests is_valid_char c_text text_eq
file = refl

long_extension : is_valid_component [] (codes "A.HTML") true ≡ false
unfolding is_valid_component copy_text upper_loop component_tests is_valid_char c_text text_eq
long_extension = refl

dotted_directory : is_valid_component [] (codes "A.B") false ≡ false
unfolding is_valid_component copy_text upper_loop component_tests is_valid_char c_text text_eq
dotted_directory = refl

-- A dot left on the stack behind the copy refuses a plain file name.
stale_dot : is_valid_component (codes ".") (codes "README") true ≡ false
unfolding is_valid_component copy_text upper_loop component_tests is_valid_char c_text text_eq
stale_dot = refl

is_valid_component-Is83_example :
    (is_valid_component [] (codes "Read.me") true ≡ true) ↔ Is83 [] (codes "Read.me") true
is_valid_component-Is83_example =
    is_valid_component-Is83 [] (codes "Read.me") true
      (refl, (refl, (refl, (refl, (refl, (refl, (refl, tt)))))))
