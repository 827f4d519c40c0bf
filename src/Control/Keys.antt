-- ===== src/Control/Keys.antt =====
-- crates/redfog-moonlight/src/control.rs: Windows key and mouse button codes as Linux evdev codes.
use redfog.Base.{ℕ, ◌==◌, if◌then◌else◌, Option, none, some, List, [], ◌∷◌, get_elem?}

-- The arms of `vk_to_evdev`, in order.
abbrev pub evdev_keys : List (ℕ × ℕ)
evdev_keys =
    (8, 14)
    ∷ (9, 15)
    ∷ (13, 28)
    ∷ (16, 42)
    ∷ (17, 29)
    ∷ (18, 56)
    ∷ (19, 119)
    ∷ (20, 58)
    ∷ (27, 1)
    ∷ (32, 57)
    ∷ (33, 104)
    ∷ (34, 109)
    ∷ (35, 107)
    ∷ (36, 102)
    ∷ (37, 105)
    ∷ (38, 103)
    ∷ (39, 106)
    ∷ (40, 108)
    ∷ (45, 110)
    ∷ (46, 111)
    ∷ (48, 11)
    ∷ (49, 2)
    ∷ (50, 3)
    ∷ (51, 4)
    ∷ (52, 5)
    ∷ (53, 6)
    ∷ (54, 7)
    ∷ (55, 8)
    ∷ (56, 9)
    ∷ (57, 10)
    ∷ (65, 30)
    ∷ (66, 48)
    ∷ (67, 46)
    ∷ (68, 32)
    ∷ (69, 18)
    ∷ (70, 33)
    ∷ (71, 34)
    ∷ (72, 35)
    ∷ (73, 23)
    ∷ (74, 36)
    ∷ (75, 37)
    ∷ (76, 38)
    ∷ (77, 50)
    ∷ (78, 49)
    ∷ (79, 24)
    ∷ (80, 25)
    ∷ (81, 16)
    ∷ (82, 19)
    ∷ (83, 31)
    ∷ (84, 20)
    ∷ (85, 22)
    ∷ (86, 47)
    ∷ (87, 17)
    ∷ (88, 45)
    ∷ (89, 21)
    ∷ (90, 44)
    ∷ (91, 125)
    ∷ (92, 126)
    ∷ (96, 82)
    ∷ (97, 79)
    ∷ (98, 80)
    ∷ (99, 81)
    ∷ (100, 75)
    ∷ (101, 76)
    ∷ (102, 77)
    ∷ (103, 71)
    ∷ (104, 72)
    ∷ (105, 73)
    ∷ (106, 55)
    ∷ (107, 78)
    ∷ (109, 74)
    ∷ (110, 83)
    ∷ (111, 98)
    ∷ (112, 59)
    ∷ (113, 60)
    ∷ (114, 61)
    ∷ (115, 62)
    ∷ (116, 63)
    ∷ (117, 64)
    ∷ (118, 65)
    ∷ (119, 66)
    ∷ (120, 67)
    ∷ (121, 68)
    ∷ (122, 87)
    ∷ (123, 88)
    ∷ (144, 69)
    ∷ (145, 70)
    ∷ (160, 42)
    ∷ (161, 54)
    ∷ (162, 29)
    ∷ (163, 97)
    ∷ (164, 56)
    ∷ (165, 100)
    ∷ (186, 39)
    ∷ (187, 13)
    ∷ (188, 51)
    ∷ (189, 12)
    ∷ (190, 52)
    ∷ (191, 53)
    ∷ (192, 41)
    ∷ (219, 26)
    ∷ (220, 43)
    ∷ (221, 27)
    ∷ (222, 40)
    ∷ (226, 86)
    ∷ []

unfoldable pub first_arm : List (ℕ × ℕ) → ℕ → Option ℕ
first_arm [] vk = none
first_arm ((k, code) ∷ arms) vk =
    let rest = first_arm arms vk in if vk == k then some code else rest

unfoldable pub vk_to_evdev : ℕ → Option ℕ
unfolding first_arm
vk_to_evdev vk = first_arm evdev_keys vk

unfoldable pub key_code_from : List ℕ → Option ℕ
key_code_from body = get_elem? body 1

abbrev pub mouse_buttons : List (ℕ × ℕ)
mouse_buttons = (1, 272) ∷ (2, 274) ∷ (3, 273) ∷ (4, 275) ∷ (5, 276) ∷ []

unfoldable pub mouse_button_from : List ℕ → Option ℕ
unfolding first_arm
mouse_button_from [] = none
mouse_button_from (b ∷ body) = first_arm mouse_buttons b
