-- ===== src/BasepointTable/Lower.antt =====
-- The first half of AFFINE_ODD_MULTIPLES_OF_BASEPOINT of
-- curve25519/solana-ed25519/src/backend/serial/u64/constants.rs.
use ed25519_verificationtest.Common.{List, [], ◌∷◌}
use ed25519_verificationtest.CurveModels.{AffineNielsPoint}
use ed25519_verificationtest.BasepointTable.{from_limbs, entry}

abbrev pub lower_multiples : List AffineNielsPoint
lower_multiples =
    entry
      (from_limbs 3540182452943730 2497478415033846 2521227595762870 1462984067271729
        2389212253076811)
      (from_limbs 62697248952638 204681361388450 631292143396476 338455783676468 1213667448819585)
      (from_limbs 301289933810280 1259582250014073 1422107436869536 796239922652654
        1953934009299142)
    ∷ entry
        (from_limbs 1601611775252272 1720807796594148 1132070835939856 3512254832574799
          2147779492816910)
        (from_limbs 316559037616741 2177824224946892 1459442586438991 1461528397712656
          751590696113597)
        (from_limbs 1850748884277385 1200145853858453 1068094770532492 672251375690438
          1586055907191707)
    ∷ entry
        (from_limbs 769950342298400 2384754244604994 3095885746880802 3225892188161580
          2977876099231263)
        (from_limbs 425251763115706 608463272472562 442562545713235 837766094556764 374555092627893)
        (from_limbs 1086255230780037 274979815921559 1960002765731872 929474102396301
          1190409889297339)
    ∷ entry
        (from_limbs 2916800678241215 2065379846933858 2622030924071124 2602788184473875
          1233371373142984)
        (from_limbs 2019367628972465 676711900706637 110710997811333 1108646842542025
          517791959672113)
        (from_limbs 965130719900578 247011430587952 526356006571389 91986625355052 2157223321444601)
    ∷ entry
        (from_limbs 1802695059464988 1664899123557221 2845359304426105 2160434469266658
          3179370264440279)
        (from_limbs 1725674970513508 1933645953859181 1542344539275782 1767788773573747
          1297447965928905)
        (from_limbs 1381809363726107 1430341051343062 2061843536018959 1551778050872521
          2036394857967624)
    ∷ entry
        (from_limbs 4222693909998302 2779866139518454 1619374932191226 2207306624415883
          1169170329061080)
        (from_limbs 2070390218572616 1458919061857835 624171843017421 1055332792707765
          433987520732508)
        (from_limbs 893653801273833 1168026499324677 1242553501121234 1306366254304474
          1086752658510815)
    ∷ entry
        (from_limbs 2465253816303469 3191571337672685 1159882208056013 2569188183312765
          621213314200686)
        (from_limbs 1971678598905747 338026507889165 762398079972271 655096486107477 42299032696322)
        (from_limbs 177130678690680 1754759263300204 1864311296286618 1180675631479880
          1292726903152791)
    ∷ entry
        (from_limbs 1913163449625248 2712579013977241 2193883288642313 1008900146920800
          1721983679009502)
        (from_limbs 1070401523076875 1272492007800961 1910153608563310 2075579521696771
          1191169788841221)
        (from_limbs 692896803108118 500174642072499 2068223309439677 1162190621851337
          1426986007309901)
    ∷ entry
        (from_limbs 1819621230288238 2735700366193240 1755134670739586 3080648199451191
          4172807995775876)
        (from_limbs 992069868904071 799011518185730 1777586403832768 1134820506145684
          1999461475558530)
        (from_limbs 425204543703124 2040469794090382 1651690622153809 1500530168597569
          1253908377065966)
    ∷ entry
        (from_limbs 2105824306960939 1387520302709358 3633176580451016 2211816663841753
          1629085891776489)
        (from_limbs 1485201376284999 1022406647424656 504181009209019 962621520820995
          590876713147230)
        (from_limbs 265873406365287 1192742653492898 88553098803050 525037770869640
          1266933811251234)
    ∷ entry
        (from_limbs 3552316659826612 1254279525791875 1609927932077699 3578654071679972
          3750681296069893)
        (from_limbs 37186803519861 1404297334376301 578519728836650 1740727951192592
          2095534282477028)
        (from_limbs 833234263154399 2023862470013762 1854137933982069 853924318090959
          1589812702805850)
    ∷ entry
        (from_limbs 3679150557957763 1319179453661745 497496853611112 2665464286942351
          1208137952365560)
        (from_limbs 1654513078530905 907489875842908 126098711296368 1726320004173677
          28269495058173)
        (from_limbs 114436686957443 532739313025996 115428841215897 2191499400074366
          370280402676434)
    ∷ entry
        (from_limbs 1111146849833253 2016430049079759 1860522747477948 3537164738290194
          4137142824844184)
        (from_limbs 429069864577128 975327637149449 237881983565075 1654761232378630
          2122527599091807)
        (from_limbs 2093793463548278 754827233241879 1420389751719629 1829952782588138
          2011865756773717)
    ∷ entry
        (from_limbs 676293365438898 2850296017886344 1205350322490195 2763699392265669
          2133931188538142)
        (from_limbs 48340340349120 1299261101494832 1137329686775218 1534848106674340
          1351662218216799)
        (from_limbs 1904520614137939 1590301001714014 215781420985270 2043534301034629
          1970888949300424)
    ∷ entry
        (from_limbs 2365217962409710 2061307169694064 1887478590157603 2169639621284316
          2373810867477200)
        (from_limbs 1020052624656948 1260412094216707 366721640607121 585331442306596
          345876457758061)
        (from_limbs 975390299880933 1066555195234642 12651997758352 1184252205433068
          1058378155074223)
    ∷ entry
        (from_limbs 1431537716602643 2024827957433813 3746434518400495 1087794891033550
          2156817571680455)
        (from_limbs 929288033346881 255179964546973 711057989588035 208899572612840 185348357387383)
        (from_limbs 823689746424808 47266130989546 209403309368097 1100966895202707 710792075292719)
    ∷ entry
        (from_limbs 2311213117823762 3296668540922318 2004276520649823 1861500579441125
          3148029033359833)
        (from_limbs 1563693677475261 1843782073741194 1950700654453170 911540858113949
          2085151496302359)
        (from_limbs 1427880892005482 106216431121745 42608394782284 1217295886989793
          1514235272796882)
    ∷ entry
        (from_limbs 3544335535746750 2367994491347456 2567261456502612 1854058085060971
          2263545563461076)
        (from_limbs 787426011300053 2105981035769060 1130476291127206 1748659348100075
          53470983013756)
        (from_limbs 553548273865386 5927805718390 65184587381926 633576679686953 576048559439973)
    ∷ entry
        (from_limbs 993787326657446 3868807161609258 1615796046728943 2514644292681953
          2059021068660907)
        (from_limbs 251010270518880 1681684095763484 1521949356387564 431593457045116
          1855308922422910)
        (from_limbs 618490909691959 1257497595618257 202952467594088 35577762721238
          1494883566841973)
    ∷ entry
        (from_limbs 1673474571932262 2409784519770613 2636095316260487 2761112584601925
          3333713288149876)
        (from_limbs 1600640202645197 1019569075331823 1041916487915822 1680448171313267
          2126903137527901)
        (from_limbs 894964745143659 106116880092678 1009869382959477 317866368542032
          1986983122763912)
    ∷ entry
        (from_limbs 1765281781276487 2863247187455184 2589075472439062 1386435905543054
          2182338478845320)
        (from_limbs 1144730936996693 2213315231278180 1489676672185125 665039429138074
          1131283313040268)
        (from_limbs 2004734176670602 1738311085075235 418866995976618 1050782508034394
          577747313404652)
    ∷ entry
        (from_limbs 2185209688340293 1309276076461009 2514740038571278 3994889904012999
          3018098826231021)
        (from_limbs 1405936970888515 1754621155316654 1211862168554999 1813045702919083
          997853418197172)
        (from_limbs 82037622045021 1646398333621944 613095452763466 1312329542583705 81014679202721)
    ∷ entry
        (from_limbs 2389287991277873 403851022333257 1597473361477193 2953351602509212
          2135174663049062)
        (from_limbs 1826548187201150 302299893734126 1475477168615781 842617616347376
          1438600873676130)
        (from_limbs 663049852468609 1649295727846569 1048009692742781 628866177992421
          1914360327429204)
    ∷ entry
        (from_limbs 1795645928096646 306878154408959 2924901319092394 2801261341654799
          1653782432983523)
        (from_limbs 2077597317438627 212642017882064 674844477518888 875487498687554
          2060550250171182)
        (from_limbs 1420448018683809 1032663994771382 1341927003385267 1340360916546159
          1988547473895228)
    ∷ entry
        (from_limbs 1082660122598844 2545055705583789 3888919679589007 1670283344995811
          3403239134794618)
        (from_limbs 90430593339788 1838338032241275 571293238480915 1639938867416883
          257378872001111)
        (from_limbs 1528535658865034 1516636853043960 787000569996728 1464531394704506
          1684822625133795)
    ∷ entry
        (from_limbs 811329918113934 2783463529007378 1769095754634835 2970819621866866
          881037178164325)
        (from_limbs 1784566501964517 433890943689325 1186055625589419 1496077405487512
          1731807117886548)
        (from_limbs 424909811816304 1355993963741797 409606483251841 455665350637068
          1617009023642808)
    ∷ entry
        (from_limbs 2478728492077816 2780289048655501 2328687177473769 4107341333582032
          1316147724308250)
        (from_limbs 1617420574301156 1741273341070467 667135503486508 2100436564640123
          1032223920000865)
        (from_limbs 1753947659404033 247279202390193 1819288880178945 737334285670249
          1037873664856104)
    ∷ entry
        (from_limbs 1762568490530034 673742465299012 2054571050635888 2040165159255111
          3040123733327257)
        (from_limbs 1627187989987422 1686331580821752 1309895873498183 719718719104086
          300063199808722)
        (from_limbs 238176707016164 1440454788877048 203336037573144 1437789888677072
          101522256664211)
    ∷ entry
        (from_limbs 1895216760098480 1934324337975022 3677350688973167 2536415965456176
          714678003308640)
        (from_limbs 508185358728815 1691320535341855 2168887448239256 1035124393070661
          1936603999698584)
        (from_limbs 390562831571647 1390223890708972 1383183990676371 435998174196410
          1882086414390730)
    ∷ entry
        (from_limbs 3747620842612921 2081794785291195 3284594056262745 2090090346797895
          2581692978935809)
        (from_limbs 244144781251265 1290834426417077 1888701171101942 1233922456644870
          241117402207491)
        (from_limbs 1266169390045455 1148042013187970 878921907853942 1815738019658093
          908920199341621)
    ∷ entry
        (from_limbs 2521768507305118 953557056811112 2015863732865770 1358382511861315
          2835421647899992)
        (from_limbs 2239837206240498 330928973149665 422268062913642 1481280019493032
          619879520439841)
        (from_limbs 1360166735366017 1770556573948510 1395061284191031 1814003148068126
          522781147076884)
    ∷ entry
        (from_limbs 2611794802645686 707234844948070 1314059396506491 2919250341703934
          2161831667832785)
        (from_limbs 934831784182383 433734253968318 1660867106725771 1968393082772831
          873946300968490)
        (from_limbs 26306827827554 430884999378685 1504310424376419 1761358720837522
          542195685418530)
    ∷ []
