-- ===== src/BasepointTable/Upper.antt =====
-- The second half of AFFINE_ODD_MULTIPLES_OF_BASEPOINT of
-- curve25519/solana-ed25519/src/backend/serial/u64/constants.rs.
use ed25519_verificationtest.Common.{List, [], ◌∷◌}
use ed25519_verificationtest.CurveModels.{AffineNielsPoint}
use ed25519_verificationtest.BasepointTable.{from_limbs, entry}

abbrev pub upper_multiples : List AffineNielsPoint
upper_multiples =
    entry
      (from_limbs 1762131062631725 3123952634417535 3619918390837537 2909990877347294
        1411594230004385)
      (from_limbs 538272372224622 1425714779586199 588313661410172 1497062084392578
        1602174047128512)
      (from_limbs 907490361939255 1963620338391363 626927432296975 1250748516081414 959901171882527)
    ∷ entry
        (from_limbs 1335066153744413 2887804660779657 2653073855954038 2765226981667422
          938831784476763)
        (from_limbs 296699434737224 2047543711075683 2076451038937139 227783599906901
          1602062110967627)
        (from_limbs 1574834773194203 1384279952062839 393652417255803 2166968242848859
          1552890441390820)
    ∷ entry
        (from_limbs 1619646774410947 1576090644023562 3035228391320965 1735328519940543
          2355324535937066)
        (from_limbs 1024074573633446 957088456885874 1690425531356997 2102187380180052
          1082544623222033)
        (from_limbs 1871906170635853 1719383891167200 1584032250247862 823764804192117
          2244048510084261)
    ∷ entry
        (from_limbs 642147846489775 3334304977145699 305205716788147 2589176626729533
          2224680511484174)
        (from_limbs 1734162377166545 260713621840346 157174591942595 952544272517991
          222818702471733)
        (from_limbs 1213115494182947 286778704335711 2130189536016490 308349182281342
          1217623948685491)
    ∷ entry
        (from_limbs 3360052266973635 1843486583624091 1561693837124349 1084041964025479
          1866270922024009)
        (from_limbs 460705465481210 1968151453817859 497005926994844 625618055866751
          2176893440866887)
        (from_limbs 1655800250476757 2036588542300609 666447448675243 1615721995750683
          1508669225186765)
    ∷ entry
        (from_limbs 2245948203759141 1058306669699396 1452898014240582 3961024141962768
          1633235287338608)
        (from_limbs 986647273684279 1507266907811370 1260572633649005 2071672342077446
          695976026010857)
        (from_limbs 1312356620823495 1635278548098567 901946076841033 585120475533168
          1240667113237384)
    ∷ entry
        (from_limbs 2313723935779695 1506054666773895 996040223525031 636592914999692
          1497801917020297)
        (from_limbs 292042016419794 1158932298133044 2062611870323738 1946058478962569
          1749165808126286)
        (from_limbs 654683942212830 1526897351349087 2006818439922838 2194919327350361
          1451960776874416)
    ∷ entry
        (from_limbs 3015041017808905 2951823141773809 2584865668253675 2508192032998563
          2582137700042019)
        (from_limbs 1628123495344283 2072923641214546 1647225812023982 855655925244679
          1758126430071140)
        (from_limbs 1615895096489599 275295258643784 937665541219916 1313496726746346
          1186468946422626)
    ∷ entry
        (from_limbs 1603070202850694 2072127623773242 1692648737212158 2493373404187852
          1248948672117105)
        (from_limbs 11167836031898 596565174397990 2196351068723859 314744641791907
          1102014997250781)
        (from_limbs 1409047922401191 69960384467966 688103515547600 1309746102488044
          150292892873778)
    ∷ entry
        (from_limbs 1986083055103168 691715819340300 1361811659746933 3459052030333434
          1063594696046061)
        (from_limbs 1201987338414749 2198784582460616 1203335513981498 489243077045066
          2205278143582433)
        (from_limbs 2034744376624534 2077387101466387 148448542974969 1502697574577258
          473186584705655)
    ∷ entry
        (from_limbs 472016956315960 720786972252993 2840633661190043 3150798753357827
          2816563335499153)
        (from_limbs 253464247569755 168314237403057 511780806170295 1058862316549135
          1646858476817137)
        (from_limbs 595092995922219 1491311840717691 291581784452778 1569186646367854
          1031385061400544)
    ∷ entry
        (from_limbs 3483137021572755 1526955102024322 2778006642704458 457549634924205
          1097420237736736)
        (from_limbs 1246991699537710 81367319519439 530844036072196 163656863755855
          1950742455979290)
        (from_limbs 191532664076407 539378506082089 1021612562876554 1026603384732632
          1773368780410653)
    ∷ entry
        (from_limbs 4144620731387879 590179521333342 4034023318016108 2255745030335426
          2699746851701250)
        (from_limbs 2206599697359952 553895797384417 181689161933786 1153123447919104
          778568064152659)
        (from_limbs 1706307000059211 1885601289314487 889758608505788 550131729999853
          1006862664714268)
    ∷ entry
        (from_limbs 3210197754285058 2048500453422630 3403309827888207 927154428508963
          4199813798872019)
        (from_limbs 992058915374933 476120535358775 1973648780784340 2025282643598818
          2182318983793230)
        (from_limbs 1343440812005821 1316045839091795 1884951299078063 1765919609219175
          2197567554627988)
    ∷ entry
        (from_limbs 3129247779382818 4415026969054274 1900265885969643 1528796215447059
          2172730393748688)
        (from_limbs 1773355092297603 64654329538271 1332124041660957 748492100858001
          895500006200535)
        (from_limbs 2000840647851980 546565968824914 420633283457524 195470736374507
          1958689297569520)
    ∷ entry
        (from_limbs 743138980705446 3411117504637167 2591389959690621 2380042066577202
          3022267940115114)
        (from_limbs 165947002229363 115186103724967 1068573292121517 1842565776920938
          1969395681111987)
        (from_limbs 553322266190633 234265665613185 484544650202821 1238773526575826
          2017991917953668)
    ∷ entry
        (from_limbs 2581954631514051 1245093644265357 3537016673825374 1834216551713857
          923978372152807)
        (from_limbs 1855378315339552 890045579230758 1764718173975590 197904186055854
          1718129022310327)
        (from_limbs 1278162928734862 1894118254109862 987503995465517 177406744098996
          781538103127693)
    ∷ entry
        (from_limbs 1996603431230215 1191888797552937 1207440075928499 2765853449051137
          2525314961343288)
        (from_limbs 808903879370889 990820108751280 1084429472258867 1078562781312589
          254514692695625)
        (from_limbs 615855140068469 586046731175395 693470779212674 1964537100203868
          1350330550265229)
    ∷ entry
        (from_limbs 3344544372023708 720386671449874 2480841360702110 2036034126860286
          2015744690201389)
        (from_limbs 1337446193390478 1984110761311871 746489405020285 407347127604128
          1740475330360596)
        (from_limbs 140840424783613 1063284623568331 1136446106453878 372042229029799
          442607248430694)
    ∷ entry
        (from_limbs 2330781679120937 376801425148230 2032603686676107 1488926293635130
          1317278311532959)
        (from_limbs 1290116731380016 2166899563471713 831997001838078 870954980505220
          2108537278055823)
        (from_limbs 1912719171026343 846194720551034 2043988124740726 993234269653961
          421229796383281)
    ∷ entry
        (from_limbs 2651184584992902 2775702557638963 2539786009779572 2575974880015305
          2122619079836732)
        (from_limbs 1154054290132562 931753998725577 1647742001778052 865765466488226
          1083816107290025)
        (from_limbs 986341121095108 1522330369638573 1990880546211047 501525962272123
          198539304862139)
    ∷ entry
        (from_limbs 1496414019192687 3991034436173951 3380311659062196 2854747485359158
          3346958036643152)
        (from_limbs 805612068303425 1891790027761335 1587008567571549 722120737390201
          378156757163816)
        (from_limbs 1588994517921951 977362751042302 1329302387067714 2069348224564088
          1586007159625211)
    ∷ entry
        (from_limbs 2490539421551682 1985699850375015 2331762317128172 4145097393776678
          2521049460190674)
        (from_limbs 615817553313996 2245962768078178 482564324326173 2101336843140780
          1240914880829407)
        (from_limbs 1438242482238189 874267817785463 1620810389770625 866155221338671
          1040426546798301)
    ∷ entry
        (from_limbs 2403083624110300 2548561409802975 2492699136535911 2358289519456539
          3203964320363148)
        (from_limbs 1913986535403097 1977163223054199 1972905914623196 1650122133472502
          1905849310819035)
        (from_limbs 858174816360838 614595356564037 1099584959044836 636998087084906
          1070393269058348)
    ∷ entry
        (from_limbs 3666695924830668 3585640662737501 2372994528684236 2628565977288995
          3482812783469694)
        (from_limbs 1994161359147952 2198039369802658 62790022842537 1522306785848169
          951223194802833)
        (from_limbs 852296621440717 431889737774209 370755457746189 437604073958073 627857326892757)
    ∷ entry
        (from_limbs 1794955764684156 2586904290013612 1322647643615887 856117964085888
          2652432778663153)
        (from_limbs 933592377399646 78031722952813 926049890685253 1471649501316246 33789909190376)
        (from_limbs 1479319468832059 203906207621608 659828362330083 44358398435755
          1273573524210803)
    ∷ entry
        (from_limbs 1592342143350813 3227219208247713 2345240352078765 2577750109932929
          2933512841197243)
        (from_limbs 2184946892642995 1517382324576002 1557940277419806 2170635134813213
          747314658627002)
        (from_limbs 1823193620577742 1135817878516419 1731253819308581 1031652967267804
          2123506616999453)
    ∷ entry
        (from_limbs 1346190246005805 2052692552023851 1718128041785940 2491557332978474
          3474370880388305)
        (from_limbs 424776012994573 281050757243423 626466040846420 990194703866532 38571969885982)
        (from_limbs 192408346595466 1054889725292349 584097975693004 1447909807397749
          2134645004369136)
    ∷ entry
        (from_limbs 3169895788615063 3503097743181446 601598510029975 1422812237223371
          2121009661378329)
        (from_limbs 1603348391996783 2066143816131699 1789627290363958 2145705961178118
          1985578641438222)
        (from_limbs 352633958653380 856927627345554 793925083122702 93551575767286 1222010153634215)
    ∷ entry
        (from_limbs 1756866499986349 911731956999969 2707505543214075 4006920335263786
          822501008147910)
        (from_limbs 1094036422864347 1897208881572508 1503607738246960 1901060196071406
          294068411105729)
        (from_limbs 587776484399576 1116861711228807 343398777436088 936544065763093
          1643746750211060)
    ∷ entry
        (from_limbs 3477749685790410 267997399528836 2953780922004404 3252368924080907
          3787792887348381)
        (from_limbs 2042368155872443 41662387210459 1676313264498480 1333968523426810
          1765708383352310)
        (from_limbs 1453394896690938 1585795827439909 1469309456804303 1294645324464404
          2042954198665899)
    ∷ entry
        (from_limbs 1810069207599881 1358344669503239 1989371257548167 2316270051121225
          3019675451276507)
        (from_limbs 1866114438287676 1663420339568364 1437691317033088 538298302628038
          1212711449614363)
        (from_limbs 1769235035677897 1562012115317882 31277513664750 536198657928416
          1976134212537183)
    ∷ []
