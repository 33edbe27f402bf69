-- ===== src/Access/Tests.antt =====
-- Runs of the permission functions and instances of their theorems.
use lemoniscate.Common.{◌≡◌, refl, arith, true, false, some, ok}
use lemoniscate.Access.{
  set, is_set, clear, classify, admin, guest, admin_access_template, guest_access_template,
  bit_name, name_to_bit,
}
use lemoniscate.Access.Names.{admin_grants_named, named}

-- A guest may not delete files, and may read the chat.
guest_tests :
    (is_set guest_access_template 0 ≡ ok false) × (is_set guest_access_template 9 ≡ ok true)
unfolding is_set
guest_tests = (refl, refl)

send_chat_named : bit_name 10 ≡ some "SendChat"
unfolding bit_name lemoniscate.Access.find_name
send_chat_named = refl

admin_grants_named_example : is_set admin_access_template 19 ≡ ok (named 19)
admin_grants_named_example = admin_grants_named 19 (omega arith)
