-- ===== src/Cksum/Tables/Row5.antt =====
-- Client/cksum_new.cpp: row 5 of `crctab`.
use secure_file_transfer_sys.Base.{ℕ, List, [], ◌∷◌}

unfoldable pub crctab_5 : List ℕ
crctab_5 =
    0x00000000 ∷ 0x1b280d78 ∷ 0x36501af0 ∷ 0x2d781788 ∷ 0x6ca035e0 ∷ 0x77883898 ∷ 0x5af02f10
    ∷ 0x41d82268 ∷ 0xd9406bc0 ∷ 0xc26866b8 ∷ 0xef107130 ∷ 0xf4387c48 ∷ 0xb5e05e20 ∷ 0xaec85358
    ∷ 0x83b044d0 ∷ 0x989849a8 ∷ 0xb641ca37 ∷ 0xad69c74f ∷ 0x8011d0c7 ∷ 0x9b39ddbf ∷ 0xdae1ffd7
    ∷ 0xc1c9f2af ∷ 0xecb1e527 ∷ 0xf799e85f ∷ 0x6f01a1f7 ∷ 0x7429ac8f ∷ 0x5951bb07 ∷ 0x4279b67f
    ∷ 0x03a19417 ∷ 0x1889996f ∷ 0x35f18ee7 ∷ 0x2ed9839f ∷ 0x684289d9 ∷ 0x736a84a1 ∷ 0x5e129329
    ∷ 0x453a9e51 ∷ 0x04e2bc39 ∷ 0x1fcab141 ∷ 0x32b2a6c9 ∷ 0x299aabb1 ∷ 0xb102e219 ∷ 0xaa2aef61
    ∷ 0x8752f8e9 ∷ 0x9c7af591 ∷ 0xdda2d7f9 ∷ 0xc68ada81 ∷ 0xebf2cd09 ∷ 0xf0dac071 ∷ 0xde0343ee
    ∷ 0xc52b4e96 ∷ 0xe853591e ∷ 0xf37b5466 ∷ 0xb2a3760e ∷ 0xa98b7b76 ∷ 0x84f36cfe ∷ 0x9fdb6186
    ∷ 0x0743282e ∷ 0x1c6b2556 ∷ 0x311332de ∷ 0x2a3b3fa6 ∷ 0x6be31dce ∷ 0x70cb10b6 ∷ 0x5db3073e
    ∷ 0x469b0a46 ∷ 0xd08513b2 ∷ 0xcbad1eca ∷ 0xe6d50942 ∷ 0xfdfd043a ∷ 0xbc252652 ∷ 0xa70d2b2a
    ∷ 0x8a753ca2 ∷ 0x915d31da ∷ 0x09c57872 ∷ 0x12ed750a ∷ 0x3f956282 ∷ 0x24bd6ffa ∷ 0x65654d92
    ∷ 0x7e4d40ea ∷ 0x53355762 ∷ 0x481d5a1a ∷ 0x66c4d985 ∷ 0x7decd4fd ∷ 0x5094c375 ∷ 0x4bbcce0d
    ∷ 0x0a64ec65 ∷ 0x114ce11d ∷ 0x3c34f695 ∷ 0x271cfbed ∷ 0xbf84b245 ∷ 0xa4acbf3d ∷ 0x89d4a8b5
    ∷ 0x92fca5cd ∷ 0xd32487a5 ∷ 0xc80c8add ∷ 0xe5749d55 ∷ 0xfe5c902d ∷ 0xb8c79a6b ∷ 0xa3ef9713
    ∷ 0x8e97809b ∷ 0x95bf8de3 ∷ 0xd467af8b ∷ 0xcf4fa2f3 ∷ 0xe237b57b ∷ 0xf91fb803 ∷ 0x6187f1ab
    ∷ 0x7aaffcd3 ∷ 0x57d7eb5b ∷ 0x4cffe623 ∷ 0x0d27c44b ∷ 0x160fc933 ∷ 0x3b77debb ∷ 0x205fd3c3
    ∷ 0x0e86505c ∷ 0x15ae5d24 ∷ 0x38d64aac ∷ 0x23fe47d4 ∷ 0x622665bc ∷ 0x790e68c4 ∷ 0x54767f4c
    ∷ 0x4f5e7234 ∷ 0xd7c63b9c ∷ 0xccee36e4 ∷ 0xe196216c ∷ 0xfabe2c14 ∷ 0xbb660e7c ∷ 0xa04e0304
    ∷ 0x8d36148c ∷ 0x961e19f4 ∷ 0xa5cb3ad3 ∷ 0xbee337ab ∷ 0x939b2023 ∷ 0x88b32d5b ∷ 0xc96b0f33
    ∷ 0xd243024b ∷ 0xff3b15c3 ∷ 0xe41318bb ∷ 0x7c8b5113 ∷ 0x67a35c6b ∷ 0x4adb4be3 ∷ 0x51f3469b
    ∷ 0x102b64f3 ∷ 0x0b03698b ∷ 0x267b7e03 ∷ 0x3d53737b ∷ 0x138af0e4 ∷ 0x08a2fd9c ∷ 0x25daea14
    ∷ 0x3ef2e76c ∷ 0x7f2ac504 ∷ 0x6402c87c ∷ 0x497adff4 ∷ 0x5252d28c ∷ 0xcaca9b24 ∷ 0xd1e2965c
    ∷ 0xfc9a81d4 ∷ 0xe7b28cac ∷ 0xa66aaec4 ∷ 0xbd42a3bc ∷ 0x903ab434 ∷ 0x8b12b94c ∷ 0xcd89b30a
    ∷ 0xd6a1be72 ∷ 0xfbd9a9fa ∷ 0xe0f1a482 ∷ 0xa12986ea ∷ 0xba018b92 ∷ 0x97799c1a ∷ 0x8c519162
    ∷ 0x14c9d8ca ∷ 0x0fe1d5b2 ∷ 0x2299c23a ∷ 0x39b1cf42 ∷ 0x7869ed2a ∷ 0x6341e052 ∷ 0x4e39f7da
    ∷ 0x5511faa2 ∷ 0x7bc8793d ∷ 0x60e07445 ∷ 0x4d9863cd ∷ 0x56b06eb5 ∷ 0x17684cdd ∷ 0x0c4041a5
    ∷ 0x2138562d ∷ 0x3a105b55 ∷ 0xa28812fd ∷ 0xb9a01f85 ∷ 0x94d8080d ∷ 0x8ff00575 ∷ 0xce28271d
    ∷ 0xd5002a65 ∷ 0xf8783ded ∷ 0xe3503095 ∷ 0x754e2961 ∷ 0x6e662419 ∷ 0x431e3391 ∷ 0x58363ee9
    ∷ 0x19ee1c81 ∷ 0x02c611f9 ∷ 0x2fbe0671 ∷ 0x34960b09 ∷ 0xac0e42a1 ∷ 0xb7264fd9 ∷ 0x9a5e5851
    ∷ 0x81765529 ∷ 0xc0ae7741 ∷ 0xdb867a39 ∷ 0xf6fe6db1 ∷ 0xedd660c9 ∷ 0xc30fe356 ∷ 0xd827ee2e
    ∷ 0xf55ff9a6 ∷ 0xee77f4de ∷ 0xafafd6b6 ∷ 0xb487dbce ∷ 0x99ffcc46 ∷ 0x82d7c13e ∷ 0x1a4f8896
    ∷ 0x016785ee ∷ 0x2c1f9266 ∷ 0x37379f1e ∷ 0x76efbd76 ∷ 0x6dc7b00e ∷ 0x40bfa786 ∷ 0x5b97aafe
    ∷ 0x1d0ca0b8 ∷ 0x0624adc0 ∷ 0x2b5cba48 ∷ 0x3074b730 ∷ 0x71ac9558 ∷ 0x6a849820 ∷ 0x47fc8fa8
    ∷ 0x5cd482d0 ∷ 0xc44ccb78 ∷ 0xdf64c600 ∷ 0xf21cd188 ∷ 0xe934dcf0 ∷ 0xa8ecfe98 ∷ 0xb3c4f3e0
    ∷ 0x9ebce468 ∷ 0x8594e910 ∷ 0xab4d6a8f ∷ 0xb06567f7 ∷ 0x9d1d707f ∷ 0x86357d07 ∷ 0xc7ed5f6f
    ∷ 0xdcc55217 ∷ 0xf1bd459f ∷ 0xea9548e7 ∷ 0x720d014f ∷ 0x69250c37 ∷ 0x445d1bbf ∷ 0x5f7516c7
    ∷ 0x1ead34af ∷ 0x058539d7 ∷ 0x28fd2e5f ∷ 0x33d52327 ∷ []
