-- ===== src/Lib.antt =====
-- CardPang, a memory game for iOS: what its game does, proved on a model of the source.
--
-- The program. `CardPang/CardPang` is the app, in Swift. `Model/CardModel.swift` deals a shuffled deck
-- of pairs. A controller of `Controller/GameMode` takes a deck, starts a timer, and handles three
-- events on one state: a tick of the timer, a tap on a card, and going back. `CardPang/Pods` holds the
-- libraries, among them nanopb, the C of the repository, which is compiled into the app and encodes
-- and decodes protocol buffers. A stream is written or read through a callback; the encoders and
-- decoders of numbers, tags, strings and fields stand on `pb_write` and `pb_read`.
--
-- The files.
--   Common: Boolean tests, lists and bit operations over native numbers.
--   Game/Deck: Model/Card.swift and Model/CardModel.swift. `deal_rounds` is the `while` loop,
--     `shuffle_rounds` the `for` loop, `get_cards` the function with its number of pairs. A call of
--     `arc4random_uniform(n)` is `draw k n`, where k counts the calls.
--   Game/Board: the three controllers, which differ in the time, the deck and the wording. `Game` is
--     the controller's variables, with what it has asked of the cells and shown so far. `check_game_ended`,
--     `check_for_matches`, `did_select_item_at`, `timer_elapsed` and `move_back` are its functions;
--     `Step` says which may run when, and `Reaches` is any sequence of them. Rules has the rules of the
--     game on a board that leaves out what is face up, the time and the views.
--   Account/Forms: AuthenticationViewModel.swift, AuthButton.swift and the controllers of Controller/Login.
--     Handlers has their functions and events. A call of the service and its answer are two events.
--   Account/Service: API/Service.swift and Model/User.swift. Firebase is the parameter `firebase`, and
--     Account/Service/Documented says what is relied on. Account/Home: HomeController.swift, and the
--     answer of Google in LoginController.swift.
--   Nanopb/Types: pb.h. Nanopb/Output, Nanopb/Encode: pb_encode.c. Nanopb/Input, Nanopb/Decode:
--     pb_decode.c. A function keeps its C name; what C returns as `false` is `none`, and a value
--     stored through an output pointer is the result.
--   Nanopb/Fields: the field iterator of pb_common.c, and the search of pb_decode.c for extensions.
--   Nanopb/Message: `pb_encode` and what it calls in pb_encode.c. Memory is a list of bytes with
--     addresses for indices; the constant tables and the user's functions are a record `Program`.
--   Nanopb/Defaults: `pb_message_set_to_defaults` of pb_decode.c, on such a memory.
--   Nanopb/Message/Machine, Release, Fields, Pointers, Callbacks, Seen, Decode: the field decoders,
--     `pb_release`, `decode_field` and `pb_decode` of pb_decode.c, on a stream and a memory. What the
--     generated tables and the user's program give is a record `Setup`.
--   Game/Examples, Account/Examples, Nanopb/Examples and the children of that: runs, and
--     instances of the theorems.
--
-- Bounds. The nanopb settings are those of the app's build: PB_FIELD_32BIT and PB_ENABLE_MALLOC, a
-- 64-bit `size_t`, 8-bit `uint_fast8_t`, little-endian memory. Sums of sizes wrap as written. The
-- dealing loop has fuel, as numbers may repeat for any number of rounds. A varint loop has fuel
-- above the bytes left, which is enough when the callback leaves `bytes_left` to `pb_read`, or
-- above the ten rounds that its bit position allows; skipping has one round for each byte, though a
-- round takes sixteen. A loop over a table has one round for each of its entries, a list of
-- extensions no more entries than the memory has bytes; `pb_encode` has the depth of submessages
-- for fuel, and is out of fuel with the message `no_fuel`, also on a list of extensions that does
-- not end; so have `pb_message_set_to_defaults` and `pb_release`, with no memory. `pb_decode` has
-- the same fuel, and its loops have fuel above the bytes left; `out_of_fuel` tells an end of fuel
-- from `false`. The milliseconds, a Float that only ever holds whole numbers below 2^24, are a
-- number.
--
-- Not modelled: layout, animation and the formatting of text, which are UIKit's; the onboarding and
-- other screens; the other libraries in Pods, which are copies that the app only calls; a callback
-- of a stream that puts another callback in its place.
pub mod Account
pub mod Common
pub mod Game
pub mod Nanopb
